-- ===== src/Rosbridge/Client/Lifecycle/Spoken.antt =====
-- Whatever happens to a client, it says requests of rosbridge on its own namespace, and nothing else.
use rom_go_app.Prelude.{
  ◌-◌, ℕ, ◌≡◌, refl, sym, subst, String, Bool, false, not, ◌||◌, ◌+++◌, inl, inr, Float64, All,
  arith, if_holds, Bool-cases, Option-cases, ◌=?◌, ◌==◌, if◌then◌else◌, eq_iff,
}
use rom_go_app.Rosbridge.Protocol.{Json, publish_msg, call_service_msg}
use rom_go_app.Rosbridge.Codec.{Raw, Codec, Envelope}
use rom_go_app.Rosbridge.Client.{
  Client, Dialer, Network, Ticker, new_client, ticking, stopped, no_ticker, connect, disconnect,
  read_error, schedule_reconnect,
}
use rom_go_app.Rosbridge.Client.Topics.{unsubscribe_all}
use rom_go_app.Rosbridge.Client.CmdVel.{
  publish_cmd_vel_tick, same_cmd, twist_msg, set_desired_cmd_vel, set_cmd_vel_enabled,
}
use rom_go_app.Rosbridge.Client.Services.{
  begin_call, finish_call, forget, call_id, handle_service_response,
}
use rom_go_app.Rosbridge.Client.Parsers.{parse_tf}
use rom_go_app.Rosbridge.Client.Inbound.{dispatch, handle_publish, handle_message}
use rom_go_app.Rosbridge.Client.Lifecycle.Steps.{
  Event, connects, disconnects, read_fails, receives, reconnect_fires, connected_runs,
  publisher_ticks, sends, drives, unsubscribes, step, publisher_turn, connected_turn,
}
use rom_go_app.Rosbridge.Client.Lifecycle.Moves.{
  Moves, rests, turns, begins, finishes, forgets, subscribes, steers, stops,
}
use rom_go_app.Rosbridge.Client.Lifecycle.Frames.{
  Frame, publishes, calls, Named, voice, Speaks, same-Speaks, send-Speaks,
  subscribe_all_topics-Speaks, unsubscribe_all-Speaks,
}

module _ {F : Type 0} (fl : Float64 F) (codec : Codec F) where
  voice-parse_tf : (msg : Raw) (c : Client F) → voice (parse_tf fl codec msg c).0 ≡ voice c
  unfolding parse_tf
  voice-parse_tf msg c = elim (Bool-cases c.wired) [
    | inl set ↦ elim (Option-cases (codec.transforms msg)) [
      | inl e ↦ rw (set, e) refl
      | inr (ts, e) ↦ rw (set, e) refl
    ]
    | inr unset ↦ rw unset refl
  ]

  voice-handle_publish :
      (topic : String) (msg : Raw) (c : Client F)
      → voice (handle_publish fl codec topic msg c).0 ≡ voice c
  unfolding handle_publish
  voice-handle_publish topic msg c = ground (arith, voice-parse_tf msg c)

  voice-handle_service_response :
      (id : String) (raw : Raw) (c : Client F)
      → voice (handle_service_response id raw c).0 ≡ voice c
  unfolding handle_service_response
  voice-handle_service_response id raw c = ground arith

  voice-dispatch :
      (e : Envelope) (raw : Raw) (c : Client F) → voice (dispatch fl codec e raw c).0 ≡ voice c
  voice-dispatch e raw c = elim (Bool-cases (e.op =? "publish")) [
    | inl published ↦ rw published (voice-handle_publish e.topic e.msg c)
    | inr other ↦ rw other (elim (Bool-cases (e.op =? "service_response")) [
      | inl response ↦ rw response (voice-handle_service_response e.id raw c)
      | inr neither ↦ rw neither refl
    ])
  ]

  voice-handle_message :
      (raw : Raw) (c : Client F) → voice (handle_message fl codec raw c).0 ≡ voice c
  unfolding handle_message
  voice-handle_message raw c = elim (Option-cases (codec.envelope raw)) [
    | inl e ↦ rw (e, handle_message) refl
    | inr (envelope, e) ↦ rw (e, handle_message) (voice-dispatch envelope raw c)
  ]

module _ {F : Type 0} (fl : Float64 F) (ns : String) where
  Named-Frame :
      (topic : String) (msg : Json F)
      → (topic =? "") ≡ false
      → Named ns topic
      → Frame ns (publish_msg topic msg)
  Named-Frame topic msg given (inl empty) = absurd (ground (arith, eq_iff topic ""))
  Named-Frame topic msg given (inr (s, e)) =
      subst (λ (x : String). Frame ns (publish_msg x msg)) (sym e) (publishes s msg)

  publish_cmd_vel_tick-Speaks :
      (net : Network F) (c : Client F) → Speaks ns c → Speaks ns (publish_cmd_vel_tick fl net c)
  unfolding publish_cmd_vel_tick
  publish_cmd_vel_tick-Speaks net c v =
      let msg = publish_msg c.topic_cmd_vel (twist_msg fl c.desired_twist) in
      if_holds (Speaks ns) (not c.connected || not c.cmd_vel_enabled) v
        (elim (Bool-cases (c.topic_cmd_vel =? "")) [
          | inl empty ↦ rw empty v
          | inr given ↦ rw given (
              if_holds (Speaks ns) (same_cmd fl c.desired_twist c.last_twist) v
                (send-Speaks ns net msg c (Named-Frame c.topic_cmd_vel _ given v.1.1.0) v))
        ])

  publisher_turn-Speaks :
      (codec : Codec F) (net : Network F) (c : Client F)
      → Speaks ns c
      → Speaks ns (publisher_turn fl codec net c)
  unfolding publisher_turn
  publisher_turn-Speaks codec net c v = ticked c.cmd_vel_ticker
    where
      ticked :
          (t : Ticker)
          → Speaks ns (elim t [
            | no_ticker ↦ c
            | ticking ↦ if c.publishers == 0 then c else publish_cmd_vel_tick fl net c
            | stopped ↦ c
          ])
      ticked no_ticker = v
      ticked ticking =
          if_holds (Speaks ns) (c.publishers == 0) v (publish_cmd_vel_tick-Speaks net c v)
      ticked stopped = v

  connected_turn-Speaks :
      (codec : Codec F) (net : Network F) (c : Client F)
      → Speaks ns c
      → Speaks ns (connected_turn fl codec net c)
  unfolding connected_turn set_cmd_vel_enabled
  connected_turn-Speaks codec net c v =
      if_holds (Speaks ns) (c.connected_calls == 0) v (
        subscribe_all_topics-Speaks ns net (record c { connected_calls = c.connected_calls - 1 }) v)

  -- A message that is handed to `send` directly is such a request.
  abbrev pub Polite : Event F → Type 0
  Polite (sends m) = Frame ns m
  Polite _ = Unit

  voice-connect : (dial : Dialer) (c : Client F) → voice (connect dial c).0 ≡ voice c
  unfolding connect
  voice-connect dial c = ground arith

  step-Speaks :
      (codec : Codec F) (net : Network F) (c : Client F) (e : Event F)
      → Polite e
      → Speaks ns c
      → Speaks ns (step fl codec net c e)
  unfolding step disconnect read_error schedule_reconnect set_desired_cmd_vel
  step-Speaks codec net c (connects dial) p v =
      same-Speaks ns c (connect dial c).0 (voice-connect dial c) v
  step-Speaks codec net c (disconnects stop_taken) p v =
      same-Speaks ns c (disconnect stop_taken c) (ground arith) v
  step-Speaks codec net c read_fails p v =
      same-Speaks ns c (step fl codec net c read_fails) (ground arith) v
  step-Speaks codec net c (receives raw) p v =
      if_holds (Speaks ns) (c.readers == 0) v
        (same-Speaks ns c (handle_message fl codec raw c).0 (voice-handle_message fl codec raw c) v)
  step-Speaks codec net c (reconnect_fires dial) p v =
      same-Speaks ns c (step fl codec net c (reconnect_fires dial))
        (ground (arith, voice-connect dial (record c { reconnects = c.reconnects - 1 }))) v
  step-Speaks codec net c connected_runs p v = connected_turn-Speaks codec net c v
  step-Speaks codec net c publisher_ticks p v = publisher_turn-Speaks codec net c v
  step-Speaks codec net c (sends m) p v = send-Speaks ns net m c p v
  step-Speaks codec net c (drives twist) p v = v
  step-Speaks codec net c unsubscribes p v = unsubscribe_all-Speaks ns net c v

  begin_call-Speaks :
      (net : Network F) (now : ℕ) (service : String) (args : Json F) (c : Client F)
      → Speaks ns c
      → Speaks ns (begin_call net now service args c).0
  unfolding begin_call
  begin_call-Speaks net now service args c v =
      send-Speaks ns net _ _
        (subst
          (λ (x : String). Frame ns (call_service_msg (x +++ service) args (call_id service now)))
          (sym v.0) (calls service (call_id service now) args))
        v

  voice-finish_call :
      (service id : String) (ch : ℕ) (c : Client F)
      → voice (finish_call service id ch c).0 ≡ voice c
  unfolding finish_call forget
  voice-finish_call service id ch c = ground arith

  voice-disconnect : (stop_taken : Bool) (c : Client F) → voice (disconnect stop_taken c) ≡ voice c
  unfolding disconnect
  voice-disconnect stop_taken c = ground arith

  -- Nobody hands anything else to `send` directly.
  abbrev pub IsPolite : {c d : Client F} → Moves fl c d → Type 0
  IsPolite rests = Unit
  IsPolite (turns codec net e m) = Polite e × IsPolite m
  IsPolite (begins net now service args m) = IsPolite m
  IsPolite (finishes service id ch m) = IsPolite m
  IsPolite (forgets id m) = IsPolite m
  IsPolite (subscribes net m) = IsPolite m
  IsPolite (steers twist m) = IsPolite m
  IsPolite (stops net stop_taken m) = IsPolite m

  pub Moves-Speaks : {c d : Client F} (m : Moves fl c d) → IsPolite m → Speaks ns c → Speaks ns d
  unfolding set_cmd_vel_enabled set_desired_cmd_vel forget
  Moves-Speaks rests p v = v
  Moves-Speaks (turns codec net e m) (p, ps) v = step-Speaks codec net _ e p (Moves-Speaks m ps v)
  Moves-Speaks (begins net now service args m) p v =
      begin_call-Speaks net now service args _ (Moves-Speaks m p v)
  Moves-Speaks (finishes {d} service id ch m) p v =
      same-Speaks ns d (finish_call service id ch d).0 (voice-finish_call service id ch d)
        (Moves-Speaks m p v)
  Moves-Speaks (forgets id m) p v = Moves-Speaks m p v
  Moves-Speaks (subscribes {d} net m) p v =
      subscribe_all_topics-Speaks ns net d (Moves-Speaks m p v)
  Moves-Speaks (steers twist m) p v = Moves-Speaks m p v
  Moves-Speaks (stops {d} net stop_taken m) p v =
      let quiet = unsubscribe_all net d in
      same-Speaks ns quiet (disconnect stop_taken quiet) (voice-disconnect stop_taken quiet)
        (unsubscribe_all-Speaks ns net d (Moves-Speaks m p v))

module _ {F : Type 0} (fl : Float64 F) where
  -- Whatever turns, service calls and operations of its robot come to a new client, in any order: all
  -- that it hands to its sockets are subscriptions, unsubscriptions, publications and service calls,
  -- each on a topic or a service of its own namespace, as long as nobody hands anything else to
  -- `send` directly.
  pub new_client-Frame :
      (ns host : String) (port : ℕ) (d : Client F) (m : Moves fl (new_client fl ns host port) d)
      → IsPolite fl ns m
      → All (Frame ns) d.sent
  unfolding new_client
  new_client-Frame ns host port d m p =
      (Moves-Speaks fl ns m p (
        refl,
        (inl refl, (inl refl, (inl refl, (inl refl, (inl refl, (inl refl, (inl refl, tt))))))),
        tt,
      )).2
