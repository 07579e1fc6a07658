-- ===== src/Server/Robots.antt =====
-- What the callbacks, the calls and the commands of one robot keep.
use rom_go_app.Prelude.{
  if_holds, ℕ, ◌≡◌, refl, sym, ap, subst, Bool, Option, none, some, Float64, arith, if◌then◌else◌,
}
use rom_go_app.Rosbridge.Codec.{Raw}
use rom_go_app.Rosbridge.Client.{Client, Network, Result, is_connected}
use rom_go_app.Rosbridge.Client.Parsers.{
  Callback, on_map, on_twist, on_tf, on_odom, on_ctrl_odom, on_laser, on_map_bfp,
}
use rom_go_app.Rosbridge.Client.CmdVel.{set_desired_cmd_vel}
use rom_go_app.Robot.{
  Robot, with_client, stop_connection, set_velocity, on_callback, on_twist_callback, on_connected,
  on_disconnected,
}
use rom_go_app.Navigation.Remote.{remote}
use rom_go_app.Rosbridge.Client.Lifecycle.Moves.{Moves, rests, subscribes, steers, stops, Moving}
use rom_go_app.Manager.Updates.{KeepsIdentity}
use rom_go_app.Api.Maps.{connected_call}
use rom_go_app.Server.Kept.{Listed, Follows, stays_put, Kept}

module _ {F : Type 0} (fl : Float64 F) (meanwhile : Client F → Client F) where
  pub told :
      (f : Client F → Client F) (c : Option (Client F))
      → Moving fl f
      → Follows fl c (elim c [ none ↦ none | some d ↦ some (f d) ])
  told f none m = tt
  told f (some d) m = m d

  pub with_client-Kept :
      (f : Client F → Client F)
      → (Moving fl meanwhile → Moving fl f)
      → Kept fl meanwhile (with_client f)
  with_client-Kept f m = (λ r. (refl, refl, refl), λ r v. v, λ w r. told f r.client (m w))

  pub unchanged-Kept : Kept fl meanwhile (λ r. r)
  unchanged-Kept = (λ r. (refl, refl, refl), λ r v. v, λ w r. stays_put fl r.client)

  pub if_Kept :
      (test : Robot F → Bool) (f g : Robot F → Robot F)
      → Kept fl meanwhile f
      → Kept fl meanwhile g
      → Kept fl meanwhile (λ r. if test r then f r else g r)
  if_Kept test f g k l = (
    λ r.
        if_holds (λ (s : Robot F). (s.id ≡ r.id) × (s.ip ≡ r.ip) × (s.port ≡ r.port)) (test r)
          (k.0 r) (l.0 r),
    λ r v. if_holds Listed (test r) (k.1 r v) (l.1 r v),
    λ w r. if_holds (λ (s : Robot F). Follows fl r.client s.client) (test r) (k.2 w r) (l.2 w r),
  )

  -- A change of a robot that leaves its client alone.
  pub own-Kept :
      (f : Robot F → Robot F)
      → KeepsIdentity f
      → ((r : Robot F) → Listed r → Listed (f r))
      → ((r : Robot F) → (f r).client ≡ r.client)
      → Kept fl meanwhile f
  own-Kept f same listed client =
      (same, listed, λ w r. subst (Follows fl r.client) (sym (client r)) (stays_put fl r.client))

  pub stop_connection-Kept :
      (net : Network F) (stop_taken : Bool) → Kept fl meanwhile (stop_connection net stop_taken)
  unfolding stop_connection
  stop_connection-Kept net stop_taken = with_client-Kept _ (λ w c. stops net stop_taken rests)

  pub set_velocity-Kept : (x z : F) → Kept fl meanwhile (set_velocity fl x z)
  unfolding set_velocity
  set_velocity-Kept x z = (
    λ r. (refl, refl, refl),
    λ r v. v,
    λ w r. told (λ c. set_desired_cmd_vel c _) r.client (λ c. steers _ rests),
  )

  pub on_callback-Kept :
      (now : ℕ) (callback : Callback F) → Kept fl meanwhile (on_callback now callback)
  unfolding on_callback on_twist_callback
  on_callback-Kept now (on_map d) =
      (λ r. (refl, refl, refl), λ r v. v, λ w r. stays_put fl r.client)
  on_callback-Kept now (on_twist d) =
      (λ r. (refl, refl, refl), λ r v. v, λ w r. stays_put fl r.client)
  on_callback-Kept now (on_tf d) = (λ r. (refl, refl, refl), λ r v. v, λ w r. stays_put fl r.client)
  on_callback-Kept now (on_odom d) =
      (λ r. (refl, refl, refl), λ r v. v, λ w r. stays_put fl r.client)
  on_callback-Kept now (on_ctrl_odom d) =
      (λ r. (refl, refl, refl), λ r v. v, λ w r. stays_put fl r.client)
  on_callback-Kept now (on_laser d) =
      (λ r. (refl, refl, refl), λ r v. v, λ w r. stays_put fl r.client)
  on_callback-Kept now (on_map_bfp d) =
      (λ r. (refl, refl, refl), λ r v. v, λ w r. stays_put fl r.client)

  pub on_connected-Kept : (net : Network F) → Kept fl meanwhile (on_connected net)
  unfolding on_connected
  on_connected-Kept net =
      (λ r. (refl, refl, refl), λ r v. v, λ w r. told _ r.client (λ c. subscribes net rests))

  pub on_disconnected-Kept : Kept fl meanwhile on_disconnected
  unfolding on_disconnected
  on_disconnected-Kept = (λ r. (refl, refl, refl), λ r v. v, λ w r. stays_put fl r.client)

  -- A change of the client and nothing else, seen from the robot before and after.
  abbrev SameRobot : Robot F → Robot F → Type 0
  SameRobot r s = (c : Option (Client F)) × (s ≡ record r { client = c })

  pub SameRobot-Kept :
      (f : Robot F → Robot F)
      → ((r : Robot F) → SameRobot r (f r))
      → (Moving fl meanwhile → (r : Robot F) → Follows fl r.client (f r).client)
      → Kept fl meanwhile f
  SameRobot-Kept f same follows = (
    λ r. (
      ap (λ (s : Robot F). s.id) (same r).1,
      ap (λ (s : Robot F). s.ip) (same r).1,
      ap (λ (s : Robot F). s.port) (same r).1,
    ),
    λ r v. subst Listed (sym (same r).1) v,
    follows,
  )

  -- The two common bodies of a call: where there is a client that is connected, it makes the call.
  called :
      (call : Client F → Client F × Result Raw) (c : Option (Client F))
      → Moving fl (λ d. (call d).0)
      → Follows fl c
          (elim c [ none ↦ none | some d ↦ some (if is_connected d then (call d).0 else d) ])
  called call none m = tt
  called call (some d) m = if_holds (Moves fl d) (is_connected d) (m d) rests

  abbrev call_on : (Client F → Client F × Result Raw) → Robot F → Robot F
  call_on call r = record r {
    client = elim r.client [
      | none ↦ none
      | some d ↦ some (if is_connected d then (call d).0 else d)
    ];
  }

  remote-same :
      (call : Client F → Client F × Result Raw) (r : Robot F) → (remote call r).0 ≡ call_on call r
  unfolding remote
  remote-same call r = ground arith

  connected_call-same :
      (call : Client F → Client F × Result Raw) (r : Robot F)
      → (connected_call call r).0 ≡ call_on call r
  unfolding connected_call
  connected_call-same call r = ground arith

  call_on-Kept :
      (f : Robot F → Robot F) (call : Robot F → Client F → Client F × Result Raw)
      → ((r : Robot F) → f r ≡ call_on (call r) r)
      → (Moving fl meanwhile → (r : Robot F) → Moving fl (λ c. (call r c).0))
      → Kept fl meanwhile f
  call_on-Kept f call same m =
      SameRobot-Kept f (λ r. (_, same r))
        (λ w r.
          subst (λ (s : Robot F). Follows fl r.client s.client) (sym (same r))
            (called (call r) r.client (m w r)))

  pub remote-Kept :
      (call : Robot F → Client F → Client F × Result Raw)
      → (Moving fl meanwhile → (r : Robot F) → Moving fl (λ c. (call r c).0))
      → Kept fl meanwhile (λ r. (remote (call r) r).0)
  remote-Kept call m = call_on-Kept _ call (λ r. remote-same (call r) r) m

  pub connected_call-Kept :
      (call : Client F → Client F × Result Raw)
      → (Moving fl meanwhile → Moving fl (λ c. (call c).0))
      → Kept fl meanwhile (λ r. (connected_call call r).0)
  connected_call-Kept call m = call_on-Kept _ (λ _. call) (connected_call-same call) (λ w r. m w)
