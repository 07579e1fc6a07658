-- ===== src/Rosbridge/Client/Lifecycle/Invariant.antt =====
-- What holds of a client after any turns of its goroutines.
use rom_go_app.Prelude.{
  ℕ, ◌<◌, ◌≡◌, sym, subst, ◌⊎◌, Bool, true, List, [], ◌∷◌, Float64, arith, String, ◌==◌, All, ◌-◌,
  if◌then◌else◌,
}
use rom_go_app.Rosbridge.Codec.{Raw, Codec}
use rom_go_app.Rosbridge.Client.{
  Client, Dialer, Network, ticking, new_client, connect, disconnect, read_error, schedule_reconnect,
  is_some,
}
use rom_go_app.Rosbridge.Client.CmdVel.{set_desired_cmd_vel, set_cmd_vel_enabled}
use rom_go_app.Rosbridge.Client.Inbound.{handle_message}
use rom_go_app.Rosbridge.Client.Lifecycle.Link.{
  Link, link, link-send, link-publish_cmd_vel_tick, link-subscribe_all_topics, link-unsubscribe_all,
  link-handle_message,
}
use rom_go_app.Rosbridge.Client.Lifecycle.Steps.{
  Event, connects, disconnects, read_fails, receives, reconnect_fires, connected_runs,
  publisher_ticks, sends, drives, unsubscribes, publisher_turn, connected_turn, step, run,
}

-- A connected client has a socket, a running ticker, and a read loop and a publisher that are alive.
pub record IsServed (l : Link) : Type 0 where
  pub socket : l.connected ≡ true → is_some l.conn ≡ true
  pub ticker : l.connected ≡ true → l.cmd_vel_ticker ≡ ticking
  pub reader : l.connected ≡ true → 0 < l.readers
  pub publisher : l.connected ≡ true → 0 < l.publishers

-- Connected, or with a reconnect under way.
abbrev pub IsLive : Link → Type 0
IsLive l = (l.connected ≡ true) ⊎ (0 < l.reconnects)

module _ {F : Type 0} where
  connect-IsServed :
      (dial : Dialer) (c : Client F) → IsServed (link c) → IsServed (link (connect dial c).0)
  unfolding connect
  connect-IsServed dial c v = ground arith

  pub disconnect-IsServed :
      (stop_taken : Bool) (c : Client F)
      → IsServed (link c)
      → IsServed (link (disconnect stop_taken c))
  unfolding disconnect
  disconnect-IsServed stop_taken c v = ground arith

  read_error-IsServed : (c : Client F) → IsServed (link c) → IsServed (link (read_error c))
  unfolding read_error
  read_error-IsServed c v = ground arith

  schedule_reconnect-IsServed :
      (dial : Dialer) (c : Client F)
      → IsServed (link c)
      → IsServed (link (schedule_reconnect dial c))
  unfolding schedule_reconnect
  schedule_reconnect-IsServed dial c v =
      ground (arith, connect-IsServed dial (record c { reconnects = c.reconnects - 1 }))

  connect-IsLive : (dial : Dialer) (c : Client F) → IsLive (link (connect dial c).0)
  unfolding connect
  connect-IsLive dial c = ground arith

  read_error-IsLive : (c : Client F) → IsLive (link c) → IsLive (link (read_error c))
  unfolding read_error
  read_error-IsLive c h = ground arith

  schedule_reconnect-IsLive :
      (dial : Dialer) (c : Client F) → IsLive (link (schedule_reconnect dial c))
  unfolding schedule_reconnect
  schedule_reconnect-IsLive dial c =
      ground (arith, connect-IsLive dial (record c { reconnects = c.reconnects - 1 }))

module _ {F : Type 0} (fl : Float64 F) (codec : Codec F) (net : Network F) where
  pub link-publisher_turn : (c : Client F) → link (publisher_turn fl codec net c) ≡ link c
  unfolding publisher_turn
  link-publisher_turn c = ground (arith, link-publish_cmd_vel_tick fl net c)

  pub link-connected_turn : (c : Client F) → link (connected_turn fl codec net c) ≡ link c
  unfolding connected_turn set_cmd_vel_enabled
  link-connected_turn c =
      ground (
        arith,
        link-subscribe_all_topics net (record c { connected_calls = c.connected_calls - 1 }),
      )

  -- What a read loop makes of a message, if one runs.
  pub link-received :
      (raw : Raw) (c : Client F)
      → link (if c.readers == 0 then c else (handle_message fl codec raw c).0) ≡ link c
  link-received raw c = ground (arith, link-handle_message fl codec raw c)

  -- One turn of any goroutine, and one call of any method, keep a connected client served.
  pub step-IsServed :
      (c : Client F) (e : Event F) → IsServed (link c) → IsServed (link (step fl codec net c e))
  unfolding step set_desired_cmd_vel
  step-IsServed c (connects dial) v = connect-IsServed dial c v
  step-IsServed c (disconnects stop_taken) v = disconnect-IsServed stop_taken c v
  step-IsServed c read_fails v = ground (arith, read_error-IsServed c v)
  step-IsServed c (receives raw) v = subst IsServed (sym (link-received raw c)) v
  step-IsServed c (reconnect_fires dial) v = ground (arith, schedule_reconnect-IsServed dial c v)
  step-IsServed c connected_runs v = subst IsServed (sym (link-connected_turn c)) v
  step-IsServed c publisher_ticks v = subst IsServed (sym (link-publisher_turn c)) v
  step-IsServed c (sends m) v = subst IsServed (sym (link-send net c m)) v
  step-IsServed c (drives twist) v = v
  step-IsServed c unsubscribes v = subst IsServed (sym (link-unsubscribe_all net c)) v

  run-IsServed :
      (c : Client F) (es : List (Event F))
      → IsServed (link c)
      → IsServed (link (run fl codec net c es))
  unfolding run
  run-IsServed c [] v = v
  run-IsServed c (e ∷ es) v = run-IsServed (step fl codec net c e) es (step-IsServed c e v)

  -- Whatever turns the goroutines of a new client take, in any order and with any answers of the
  -- network, a client that is connected has a socket, a running ticker, and at least one read loop
  -- and one publisher.
  pub run-new_client-IsServed :
      (ns host : String) (port : ℕ) (es : List (Event F))
      → IsServed (link (run fl codec net (new_client fl ns host port) es))
  unfolding new_client
  run-new_client-IsServed ns host port es = run-IsServed _ es (ground arith)

  -- An event that is not a call of `Disconnect`.
  abbrev pub NotDisconnect : Event F → Type 0
  NotDisconnect (disconnects _) = ⊥
  NotDisconnect _ = Unit

  step-IsLive :
      (c : Client F) (e : Event F)
      → NotDisconnect e
      → IsLive (link c)
      → IsLive (link (step fl codec net c e))
  unfolding step set_desired_cmd_vel
  step-IsLive c (connects dial) _ v = connect-IsLive dial c
  step-IsLive c (disconnects stop_taken) n v = absurd n
  step-IsLive c read_fails _ v = ground (arith, read_error-IsLive c v)
  step-IsLive c (receives raw) _ v = subst IsLive (sym (link-received raw c)) v
  step-IsLive c (reconnect_fires dial) _ v = ground (arith, schedule_reconnect-IsLive dial c)
  step-IsLive c connected_runs _ v = subst IsLive (sym (link-connected_turn c)) v
  step-IsLive c publisher_ticks _ v = subst IsLive (sym (link-publisher_turn c)) v
  step-IsLive c (sends m) _ v = subst IsLive (sym (link-send net c m)) v
  step-IsLive c (drives twist) _ v = v
  step-IsLive c unsubscribes _ v = subst IsLive (sym (link-unsubscribe_all net c)) v

  run-IsLive :
      (c : Client F) (es : List (Event F))
      → All NotDisconnect es
      → IsLive (link c)
      → IsLive (link (run fl codec net c es))
  unfolding run
  run-IsLive c [] n v = v
  run-IsLive c (e ∷ es) n v = run-IsLive (step fl codec net c e) es n.1 (step-IsLive c e n.0 v)

  -- After a first `Connect`, whether it succeeds or not, and as long as nobody calls `Disconnect`,
  -- the client is always connected or has a reconnect goroutine that is still to run.
  pub connect-run-IsLive :
      (dial : Dialer) (c : Client F) (es : List (Event F))
      → All NotDisconnect es
      → IsLive (link (run fl codec net (connect dial c).0 es))
  connect-run-IsLive dial c es n = run-IsLive _ es n (connect-IsLive dial c)
