-- ===== src/Rosbridge/Client/Lifecycle/Moves.antt =====
-- All that ever happens to a client: the turns of its goroutines, and the parts of its service calls,
-- among those of other calls.
use rom_go_app.Prelude.{
  ◌-◌, ℕ, ◌≡◌, refl, sym, ap, ◌∙◌, subst, String, Bool, true, Float64, arith, Option-cases, inl,
  inr,
}
use rom_go_app.Rosbridge.Types.{TwistData}
use rom_go_app.Rosbridge.Protocol.{Json}
use rom_go_app.Rosbridge.Codec.{Codec}
use rom_go_app.Rosbridge.Client.{
  Client, Dialer, Network, connect, disconnect, read_error, schedule_reconnect,
}
use rom_go_app.Rosbridge.Client.Topics.{subscribe_all_topics, unsubscribe_all}
use rom_go_app.Rosbridge.Client.CmdVel.{set_desired_cmd_vel, set_cmd_vel_enabled}
use rom_go_app.Rosbridge.Client.Services.{begin_call, finish_call, forget, call_service, call_id}
use rom_go_app.Rosbridge.Client.Lifecycle.Link.{
  Link, link-unsubscribe_all, link, link-send, link-subscribe_all_topics,
}
use rom_go_app.Rosbridge.Client.Lifecycle.Steps.{
  Event, connects, disconnects, read_fails, receives, reconnect_fires, connected_runs,
  publisher_ticks, sends, drives, unsubscribes, step,
}
use rom_go_app.Rosbridge.Client.Lifecycle.Invariant.{
  IsServed, step-IsServed, disconnect-IsServed, link-received, link-publisher_turn,
  link-connected_turn,
}

-- What a client `c` may become.
pub data Moves {F : Type 0} (fl : Float64 F) (c : Client F) : Client F → Type 0 where
  rests : Moves fl c c
  turns :
      {d : Client F} (codec : Codec F) (net : Network F) (e : Event F)
      → Moves fl c d
      → Moves fl c (step fl codec net d e)
  begins :
      {d : Client F} (net : Network F) (now : ℕ) (service : String) (args : Json F)
      → Moves fl c d
      → Moves fl c (begin_call net now service args d).0
  finishes :
      {d : Client F} (service id : String) (ch : ℕ)
      → Moves fl c d
      → Moves fl c (finish_call service id ch d).0
  forgets : {d : Client F} (id : String) → Moves fl c d → Moves fl c (forget id d)
  subscribes :
      {d : Client F} (net : Network F)
      → Moves fl c d
      → Moves fl c (set_cmd_vel_enabled (subscribe_all_topics net d) true)
  steers :
      {d : Client F} (twist : TwistData F) → Moves fl c d → Moves fl c (set_desired_cmd_vel d twist)
  stops :
      {d : Client F} (net : Network F) (stop_taken : Bool)
      → Moves fl c d
      → Moves fl c (disconnect stop_taken (unsubscribe_all net d))

module _ {F : Type 0} (fl : Float64 F) where
  -- What the other goroutines do to a client, whatever it is.
  abbrev pub Moving : (Client F → Client F) → Type 0
  Moving f = (c : Client F) → Moves fl c (f c)

  pub Moves-trans : {c d e : Client F} → Moves fl c d → Moves fl d e → Moves fl c e
  Moves-trans m rests = m
  Moves-trans m (turns codec net e n) = turns codec net e (Moves-trans m n)
  Moves-trans m (begins net now service args n) = begins net now service args (Moves-trans m n)
  Moves-trans m (finishes service id ch n) = finishes service id ch (Moves-trans m n)
  Moves-trans m (forgets id n) = forgets id (Moves-trans m n)
  Moves-trans m (subscribes net n) = subscribes net (Moves-trans m n)
  Moves-trans m (steers twist n) = steers twist (Moves-trans m n)
  Moves-trans m (stops net stop_taken n) = stops net stop_taken (Moves-trans m n)

  link-begin_call :
      (net : Network F) (now : ℕ) (service : String) (args : Json F) (c : Client F)
      → link (begin_call net now service args c).0 ≡ link c
  unfolding begin_call
  link-begin_call net now service args c = link-send net _ _

  link-finish_call :
      (service id : String) (ch : ℕ) (c : Client F) → link (finish_call service id ch c).0 ≡ link c
  unfolding finish_call forget
  link-finish_call service id ch c = ground arith

  link-forget : (id : String) (c : Client F) → link (forget id c) ≡ link c
  unfolding forget
  link-forget id c = refl

  link-subscribed :
      (net : Network F) (c : Client F)
      → link (set_cmd_vel_enabled (subscribe_all_topics net c) true) ≡ link c
  unfolding set_cmd_vel_enabled
  link-subscribed net c = link-subscribe_all_topics net c

  link-steered : (twist : TwistData F) (c : Client F) → link (set_desired_cmd_vel c twist) ≡ link c
  unfolding set_desired_cmd_vel
  link-steered twist c = refl

  -- A connected client stays served.
  pub Moves-IsServed : {c d : Client F} → Moves fl c d → IsServed (link c) → IsServed (link d)
  Moves-IsServed rests v = v
  Moves-IsServed (turns codec net e m) v = step-IsServed fl codec net _ e (Moves-IsServed m v)
  Moves-IsServed (begins net now service args m) v =
      subst IsServed (sym (link-begin_call net now service args _)) (Moves-IsServed m v)
  Moves-IsServed (finishes service id ch m) v =
      subst IsServed (sym (link-finish_call service id ch _)) (Moves-IsServed m v)
  Moves-IsServed (forgets id m) v = subst IsServed (sym (link-forget id _)) (Moves-IsServed m v)
  Moves-IsServed (subscribes net m) v =
      subst IsServed (sym (link-subscribed net _)) (Moves-IsServed m v)
  Moves-IsServed (steers twist m) v =
      subst IsServed (sym (link-steered twist _)) (Moves-IsServed m v)
  Moves-IsServed (stops net stop_taken m) v =
      disconnect-IsServed stop_taken _
        (subst IsServed (sym (link-unsubscribe_all net _)) (Moves-IsServed m v))

  -- Two clients that dial the same address.
  abbrev pub SameAddress : Client F → Client F → Type 0
  SameAddress c d = (d.host ≡ c.host) × (d.port ≡ c.port)

  same_link-SameAddress : (c d : Client F) → link d ≡ link c → SameAddress c d
  same_link-SameAddress c d e = (ap (λ (l : Link). l.host) e, ap (λ (l : Link). l.port) e)

  connect-SameAddress : (dial : Dialer) (c : Client F) → SameAddress c (connect dial c).0
  unfolding connect
  connect-SameAddress dial c = (ground arith, ground arith)

  disconnect-SameAddress :
      (stop_taken : Bool) (c : Client F) → SameAddress c (disconnect stop_taken c)
  unfolding disconnect
  disconnect-SameAddress stop_taken c = (ground arith, ground arith)

  step-SameAddress :
      (codec : Codec F) (net : Network F) (c : Client F) (e : Event F)
      → SameAddress c (step fl codec net c e)
  unfolding step disconnect read_error schedule_reconnect set_desired_cmd_vel
  step-SameAddress codec net c (connects dial) = connect-SameAddress dial c
  step-SameAddress codec net c (disconnects stop_taken) = disconnect-SameAddress stop_taken c
  step-SameAddress codec net c read_fails = (ground arith, ground arith)
  step-SameAddress codec net c (receives raw) =
      same_link-SameAddress c (step fl codec net c (receives raw))
        (link-received fl codec net raw c)
  step-SameAddress codec net c (reconnect_fires dial) =
      let (h, p) = connect-SameAddress dial (record c { reconnects = c.reconnects - 1 }) in
      (ground (arith, h), ground (arith, p))
  step-SameAddress codec net c connected_runs =
      same_link-SameAddress c (step fl codec net c connected_runs)
        (link-connected_turn fl codec net c)
  step-SameAddress codec net c publisher_ticks =
      same_link-SameAddress c (step fl codec net c publisher_ticks)
        (link-publisher_turn fl codec net c)
  step-SameAddress codec net c (sends m) =
      same_link-SameAddress c (step fl codec net c (sends m)) (link-send net c m)
  step-SameAddress codec net c (drives twist) = (refl, refl)
  step-SameAddress codec net c unsubscribes =
      same_link-SameAddress c (step fl codec net c unsubscribes) (link-unsubscribe_all net c)

  SameAddress-trans : (c d e : Client F) → SameAddress c d → SameAddress d e → SameAddress c e
  SameAddress-trans c d e (h, p) (h', p') = (h' ∙ h, p' ∙ p)

  same_link_trans : (c d e : Client F) → SameAddress c d → link e ≡ link d → SameAddress c e
  same_link_trans c d e s l = SameAddress-trans c d e s (same_link-SameAddress d e l)

  pub Moves-SameAddress : {c d : Client F} → Moves fl c d → SameAddress c d
  Moves-SameAddress rests = (refl, refl)
  Moves-SameAddress {c} (turns {d} codec net e m) =
      SameAddress-trans c d (step fl codec net d e) (Moves-SameAddress m)
        (step-SameAddress codec net d e)
  Moves-SameAddress {c} (begins {d} net now service args m) =
      same_link_trans c d (begin_call net now service args d).0 (Moves-SameAddress m)
        (link-begin_call net now service args d)
  Moves-SameAddress {c} (finishes {d} service id ch m) =
      same_link_trans c d (finish_call service id ch d).0 (Moves-SameAddress m)
        (link-finish_call service id ch d)
  Moves-SameAddress {c} (forgets {d} id m) =
      same_link_trans c d (forget id d) (Moves-SameAddress m) (link-forget id d)
  Moves-SameAddress {c} (subscribes {d} net m) =
      same_link_trans c d (set_cmd_vel_enabled (subscribe_all_topics net d) true)
        (Moves-SameAddress m) (link-subscribed net d)
  Moves-SameAddress {c} (steers {d} twist m) =
      same_link_trans c d (set_desired_cmd_vel d twist) (Moves-SameAddress m) (link-steered twist d)
  Moves-SameAddress {c} (stops {d} net stop_taken m) =
      let told =
        same_link_trans c d (unsubscribe_all net d) (Moves-SameAddress m)
          (link-unsubscribe_all net d) in
      SameAddress-trans c (unsubscribe_all net d) (disconnect stop_taken (unsubscribe_all net d))
        told (disconnect-SameAddress stop_taken (unsubscribe_all net d))

  -- A whole call, where the other goroutines move the client during its wait.
  pub call_service-Moves :
      (net : Network F) (now : ℕ) (meanwhile : Client F → Client F) (service : String)
      (args : Json F)
      → Moving meanwhile
      → Moving (λ c. (call_service net now meanwhile service args c).0)
  unfolding call_service
  call_service-Moves net now meanwhile service args w c =
      elim (Option-cases (begin_call net now service args c).1) [
        | inl e ↦
            rw (e, call_service)
              (finishes service (call_id service now) c.next_channel
                (Moves-trans (begins net now service args rests) (w _)))
        | inr (failure, e) ↦
            rw (e, call_service) (forgets (call_id service now) (begins net now service args rests))
      ]
