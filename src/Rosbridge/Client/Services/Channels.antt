-- ===== src/Rosbridge/Client/Services/Channels.antt =====
-- Calls that wait at the same time: each has its own channel, if their ids differ.
use rom_go_app.Prelude.{
  ℕ, suc, ◌≤◌, ◌<◌, ◌≡◌, ◌≢◌, refl, Option, none, some, arith, String, Option-cases, inl, inr,
  eq_refl, get, put, get-put, get-delete, eq_iff, ap₂, ◌∙◌,
}
use rom_go_app.Rosbridge.Protocol.{Json}
use rom_go_app.Rosbridge.Codec.{Raw}
use rom_go_app.Rosbridge.Client.{Client, Network, ok, err, timed_out, send}
use rom_go_app.Rosbridge.Client.Services.{
  unknown, call_id, set_inbox, forget, begin_call, finish_call, handle_service_response,
}

-- The channels that are not yet given out are empty, and every pending call's channel is given out.
pub record HasChannels {F : Type 0} (c : Client F) : Type 0 where
  pub fresh : (k : ℕ) → c.next_channel ≤ k → c.svc_inbox k ≡ none
  pub given : (id : String) (k : ℕ) → get id c.svc_pending ≡ some k → k < c.next_channel

module _ {F : Type 0} where
  -- The services' part of a client that has begun a call, sent or not.
  begin_call-services :
      (net : Network F) (now : ℕ) (service : String) (args : Json F) (c : Client F)
      → let d = (begin_call net now service args c).0 in
        (d.svc_pending ≡ put (call_id service now) c.next_channel c.svc_pending)
        × (d.next_channel ≡ suc c.next_channel)
        × (d.svc_inbox ≡ c.svc_inbox)
  unfolding begin_call send
  begin_call-services net now service args c = ground arith

  begin_call-HasChannels :
      (net : Network F) (now : ℕ) (service : String) (args : Json F) (c : Client F)
      → HasChannels c
      → HasChannels (begin_call net now service args c).0
  begin_call-HasChannels net now service args c v =
      let (pending, next, inbox) = begin_call-services net now service args c in
      record {
        fresh = λ k h. rw inbox (v.fresh k (omega arith));
        given = λ id k e.
            let e' : get id (put (call_id service now) c.next_channel c.svc_pending) ≡ some k =
              rw pending at e in
            ground (
              arith,
              v.given id k,
              get-put (call_id service now) id c.next_channel c.svc_pending,
              next,
            );
      }

  respond_lem :
      (id : String) (raw : Raw) (c : Client F) (ch : ℕ)
      → get id c.svc_pending ≡ some ch
      → c.svc_inbox ch ≡ none
      → (handle_service_response id raw c).0 ≡ set_inbox ch (some raw) c
  unfolding handle_service_response
  respond_lem id raw c ch e f = rw (e, f, handle_service_response) refl

  handle_service_response-HasChannels :
      (id : String) (raw : Raw) (c : Client F)
      → HasChannels c
      → HasChannels (handle_service_response id raw c).0
  unfolding handle_service_response
  handle_service_response-HasChannels id raw c v = elim (Option-cases (get id c.svc_pending)) [
    | inl e ↦ rw (e, handle_service_response) v
    | inr (ch, e) ↦ elim (Option-cases (c.svc_inbox ch)) [
      | inl f ↦
          rw (respond_lem id raw c ch e f)
            (record { fresh = λ k h. ground (arith, v.fresh k, v.given id ch); given = v.given })
      | inr (_, f) ↦ rw (e, f, handle_service_response) v
    ]
  ]

  finish_call-HasChannels :
      (service id : String) (ch : ℕ) (c : Client F)
      → HasChannels c
      → HasChannels (finish_call service id ch c).0
  unfolding finish_call forget
  finish_call-HasChannels service id ch c v = record {
    fresh = λ k h. ground (arith, v.fresh k);
    given = λ j k e. ground (arith, v.given j k, get-delete id j c.svc_pending);
  }

  finish_lem :
      (service id : String) (ch : ℕ) (c : Client F) (r : Option Raw)
      → c.svc_inbox ch ≡ r
      → (finish_call service id ch c).1
        ≡ elim r [ none ↦ err (timed_out service) | some raw ↦ ok raw ]
  unfolding finish_call
  finish_lem service id ch c none e = rw (e, finish_call) refl
  finish_lem service id ch c (some raw) e = rw (e, finish_call) refl

  crossed_lem :
      (s₁ s₂ i j : String) (raw₁ raw₂ : Raw) (w : Client F) (n m : ℕ)
      → get i w.svc_pending ≡ some n
      → get j w.svc_pending ≡ some m
      → n ≢ m
      → w.svc_inbox n ≡ none
      → w.svc_inbox m ≡ none
      → let both = (handle_service_response i raw₁ (handle_service_response j raw₂ w).0).0 in
        ((finish_call s₁ i n both).1 ≡ ok raw₁) × ((finish_call s₂ j m both).1 ≡ ok raw₂)
  crossed_lem s₁ s₂ i j raw₁ raw₂ w n m pi pj ne en em =
      let second = set_inbox m (some raw₂) w in
      let both : (handle_service_response i raw₁ second).0 ≡ set_inbox n (some raw₁) second =
        respond_lem i raw₁ second n pi (ground (arith, en)) in
      rw (respond_lem j raw₂ w m pj em, both)
        (
          finish_lem s₁ i n _ (some raw₁) (ground arith),
          finish_lem s₂ j m _ (some raw₂) (ground arith),
        )

  -- The registrations of two calls, begun one after the other.
  two_begun :
      (net : Network F) (now₁ now₂ : ℕ) (service₁ service₂ : String) (args₁ args₂ : Json F)
      (c : Client F)
      → let w = (begin_call net now₂ service₂ args₂ (begin_call net now₁ service₁ args₁ c).0).0 in
        (w.svc_pending
          ≡ put
              (call_id service₂ now₂)
              (suc c.next_channel)
              (put (call_id service₁ now₁) c.next_channel c.svc_pending))
        × (w.svc_inbox ≡ c.svc_inbox)
  two_begun net now₁ now₂ service₁ service₂ args₁ args₂ c =
      let (p₁, n₁, i₁) = begin_call-services net now₁ service₁ args₁ c in
      let (p₂, n₂, i₂) =
        begin_call-services net now₂ service₂ args₂ (begin_call net now₁ service₁ args₁ c).0 in
      (p₂ ∙ ap₂ (λ n p. put (call_id service₂ now₂) n p) n₁ p₁, i₂ ∙ i₁)

  -- Two calls with different ids wait at once, on a client whose unused channels are empty, and
  -- their responses come in the opposite order. Each call returns the response with its own id.
  pub crossed_calls :
      (net : Network F) (now₁ now₂ : ℕ) (service₁ service₂ : String) (args₁ args₂ : Json F)
      (raw₁ raw₂ : Raw) (c : Client F)
      → HasChannels c
      → call_id service₁ now₁ ≢ call_id service₂ now₂
      → let waiting =
          (begin_call net now₂ service₂ args₂ (begin_call net now₁ service₁ args₁ c).0).0 in
        let second = (handle_service_response (call_id service₂ now₂) raw₂ waiting).0 in
        let both = (handle_service_response (call_id service₁ now₁) raw₁ second).0 in
        ((finish_call service₁ (call_id service₁ now₁) c.next_channel both).1 ≡ ok raw₁)
        × ((finish_call service₂ (call_id service₂ now₂) (suc c.next_channel) both).1 ≡ ok raw₂)
  crossed_calls net now₁ now₂ service₁ service₂ args₁ args₂ raw₁ raw₂ c v h =
      let i = call_id service₁ now₁ in
      let j = call_id service₂ now₂ in
      let n = c.next_channel in
      let (pending, inbox) = two_begun net now₁ now₂ service₁ service₂ args₁ args₂ c in
      crossed_lem service₁ service₂ i j raw₁ raw₂ _ n (suc n)
        (rw pending (
          ground (
            arith,
            get-put j i (suc n) (put i n c.svc_pending),
            get-put i i n c.svc_pending,
            eq_iff j i,
            eq_refl i,
          )))
        (rw pending (ground (arith, get-put j j (suc n) (put i n c.svc_pending), eq_refl j)))
        (omega arith) (rw inbox (v.fresh n (omega arith)))
        (rw inbox (v.fresh (suc n) (omega arith)))

  unknown_after :
      (service id : String) (ch : ℕ) (raw : Raw) (w : Client F)
      → (handle_service_response id raw (finish_call service id ch w).0).1 ≡ unknown
  unfolding finish_call handle_service_response forget
  unknown_after service id ch raw w = ground (arith, get-delete id id w.svc_pending, eq_refl id)

  -- Two calls of one service in one millisecond have the same id, on a client whose unused
  -- channels are empty. The response goes to the later call, the earlier one times out, and its
  -- end makes the later one unknown: a response that comes after that is dropped.
  pub same_id_calls :
      (net : Network F) (now : ℕ) (service : String) (args₁ args₂ : Json F) (raw : Raw)
      (c : Client F)
      → HasChannels c
      → let id = call_id service now in
        let waiting = (begin_call net now service args₂ (begin_call net now service args₁ c).0).0 in
        let answered = (handle_service_response id raw waiting).0 in
        let first_over = finish_call service id c.next_channel waiting in
        ((finish_call service id c.next_channel answered).1 ≡ err (timed_out service))
        × ((finish_call service id (suc c.next_channel) answered).1 ≡ ok raw)
        × (first_over.1 ≡ err (timed_out service))
        × ((handle_service_response id raw first_over.0).1 ≡ unknown)
  same_id_calls net now service args₁ args₂ raw c v =
      let i = call_id service now in
      let n = c.next_channel in
      let w = (begin_call net now service args₂ (begin_call net now service args₁ c).0).0 in
      let (pending, inbox) = two_begun net now now service service args₁ args₂ c in
      let found : get i w.svc_pending ≡ some (suc n) =
        rw pending (ground (arith, get-put i i (suc n) (put i n c.svc_pending), eq_refl i)) in
      let empty : w.svc_inbox n ≡ none = rw inbox (v.fresh n (omega arith)) in
      let empty' : w.svc_inbox (suc n) ≡ none = rw inbox (v.fresh (suc n) (omega arith)) in
      (
        rw (respond_lem i raw w (suc n) found empty')
            (finish_lem service i n _ none (ground (arith, empty))),
        rw (respond_lem i raw w (suc n) found empty')
            (finish_lem service i (suc n) _ (some raw) (ground arith)),
        finish_lem service i n w none empty,
        unknown_after service i n raw w,
      )
