-- ===== src/Rosbridge/Client/Services/Calls.antt =====
-- One service call: every way in which it ends.
use rom_go_app.Prelude.{
  ℕ, suc, ◌≡◌, refl, true, false, none, some, [], ◌∷◌, ◌++◌, arith, String, eq_refl, get, put,
  get-put, get-delete, ◌+++◌,
}
use rom_go_app.Rosbridge.Protocol.{Json, call_service_msg}
use rom_go_app.Rosbridge.Codec.{Raw}
use rom_go_app.Rosbridge.Client.{Client, Network, ok, err, not_connected, timed_out, send, is_some}
use rom_go_app.Rosbridge.Client.Services.{
  call_id, set_inbox, forget, begin_call, finish_call, handle_service_response, call_service,
}

module _ {F : Type 0} (net : Network F) (now : ℕ) (service : String) (args : Json F) where
  finish_call-forgets :
      (id : String) (ch : ℕ) (c : Client F)
      → get id (finish_call service id ch c).0.svc_pending ≡ none
  unfolding finish_call
  finish_call-forgets id ch c = ground (arith, get-delete id id c.svc_pending, eq_refl id)

  -- However a call ends, and whatever the other goroutines do meanwhile, its id is then no longer
  -- pending.
  pub call_service-forgets :
      (meanwhile : Client F → Client F) (c : Client F)
      → get (call_id service now) (call_service net now meanwhile service args c).0.svc_pending
        ≡ none
  unfolding call_service forget
  call_service-forgets meanwhile c = ground (
    arith,
    finish_call-forgets (call_id service now) c.next_channel
        (meanwhile (begin_call net now service args c).0),
    get-delete (call_id service now) (call_id service now)
        (begin_call net now service args c).0.svc_pending,
    eq_refl (call_id service now),
  )

  -- Without a connection a call fails at once and hands nothing to the socket.
  pub call_service-not_connected :
      (meanwhile : Client F → Client F) (c : Client F)
      → c.connected ≡ false
      → ((call_service net now meanwhile service args c).1 ≡ err not_connected)
        × ((call_service net now meanwhile service args c).0.sent ≡ c.sent)
  unfolding call_service begin_call send forget
  call_service-not_connected meanwhile c e = ground arith

  -- The client that waits for its response.
  abbrev begun : Client F → Client F
  begun c = record c {
    svc_pending = put (call_id service now) c.next_channel c.svc_pending;
    next_channel = suc c.next_channel;
    sent = c.sent ++ call_service_msg (c.ns +++ service) args (call_id service now) ∷ [];
  }

  begin_call-begun :
      (c : Client F)
      → c.connected ≡ true
      → is_some c.conn ≡ true
      → net c.sent (call_service_msg (c.ns +++ service) args (call_id service now)) ≡ true
      → begin_call net now service args c ≡ (begun c, none)
  unfolding begin_call send
  begin_call-begun c e s w = ground arith

  call_service-begun :
      (meanwhile : Client F → Client F) (c : Client F)
      → c.connected ≡ true
      → is_some c.conn ≡ true
      → net c.sent (call_service_msg (c.ns +++ service) args (call_id service now)) ≡ true
      → call_service net now meanwhile service args c
        ≡ finish_call service (call_id service now) c.next_channel (meanwhile (begun c))
  unfolding call_service
  call_service-begun meanwhile c e s w = ground (arith, begin_call-begun c e s w)

  answered-begun :
      (raw : Raw) (c : Client F)
      → c.svc_inbox c.next_channel ≡ none
      → (handle_service_response (call_id service now) raw (begun c)).0
        ≡ set_inbox c.next_channel (some raw) (begun c)
  unfolding handle_service_response
  answered-begun raw c f =
      rw
        (
          get-put (call_id service now) (call_id service now) c.next_channel c.svc_pending,
          eq_refl (call_id service now),
          f,
          handle_service_response,
        )
        refl

  -- A client that is connected by a socket, whose write succeeds and whose next channel is empty,
  -- sends the one request, with its namespace in front of the service. If the response arrives
  -- during the wait, the call returns it and leaves its channel empty; if nothing happens during
  -- the wait, it returns that it timed out.
  pub call_service-answer :
      (raw : Raw) (c : Client F)
      → c.connected ≡ true
      → is_some c.conn ≡ true
      → net c.sent (call_service_msg (c.ns +++ service) args (call_id service now)) ≡ true
      → c.svc_inbox c.next_channel ≡ none
      → let respond = λ (d : Client F). (handle_service_response (call_id service now) raw d).0 in
        let request = call_service_msg (c.ns +++ service) args (call_id service now) in
        let answered = call_service net now respond service args c in
        let silent = call_service net now (λ d. d) service args c in
        (answered.1 ≡ ok raw)
        × (answered.0.sent ≡ c.sent ++ request ∷ [])
        × (answered.0.svc_inbox c.next_channel ≡ none)
        × (silent.1 ≡ err (timed_out service))
        × (silent.0.sent ≡ c.sent ++ request ∷ [])
  unfolding finish_call forget
  call_service-answer raw c e s w f =
      rw
        (
          call_service-begun (λ d. (handle_service_response (call_id service now) raw d).0) c e s w,
          call_service-begun (λ d. d) c e s w,
          answered-begun raw c f,
        )
        (ground (arith, f))
