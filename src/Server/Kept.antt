-- ===== src/Server/Kept.antt =====
-- What a change of one robot may keep: its identity, the names of its navigation points, and the
-- connection of its client.
use rom_go_app.Prelude.{◌∙◌, ◌≡◌, refl, sym, subst, Option, none, some, Float64}
use rom_go_app.Rosbridge.Client.{Client}
use rom_go_app.Robot.{Robot}
use rom_go_app.Navigation.Names.{
  waypoint, service_point, patrol_point, path_point, NamesOk, WellNamed,
}
use rom_go_app.Rosbridge.Client.Lifecycle.Link.{link}
use rom_go_app.Rosbridge.Client.Lifecycle.Invariant.{IsServed}
use rom_go_app.Rosbridge.Client.Lifecycle.Moves.{
  Moves, rests, Moving, Moves-IsServed, Moves-SameAddress,
}
use rom_go_app.Manager.Updates.{KeepsIdentity}
use rom_go_app.Manager.Evolution.{Keeps}

-- What a run of the server is watched for.
pub data Watch : Type 0 where
  nothing names links : Watch

module _ {F : Type 0} where
  -- The names in each of the four lists are in order.
  abbrev pub Listed : Robot F → Type 0
  Listed r =
      NamesOk r.waypoints
      × NamesOk r.service_points
      × NamesOk r.patrol_points
      × NamesOk r.path_points

  pub Listed-WellNamed : (r : Robot F) → Listed r → WellNamed r
  Listed-WellNamed r v waypoint = v.0
  Listed-WellNamed r v service_point = v.1
  Listed-WellNamed r v patrol_point = v.2
  Listed-WellNamed r v path_point = v.3

  pub WellNamed-Listed : (r : Robot F) → WellNamed r → Listed r
  WellNamed-Listed r v = (v waypoint, v service_point, v patrol_point, v path_point)

  -- The client of a robot dials the robot's own address, and is served when it is connected.
  abbrev pub Linked : Robot F → Type 0
  Linked r =
      (c : Client F) → r.client ≡ some c → (c.host ≡ r.ip) × (c.port ≡ r.port) × IsServed (link c)

  -- The property of a robot that is watched for.
  abbrev pub Sound : Watch → Robot F → Type 0
  Sound nothing r = Unit
  Sound names r = Listed r
  Sound links r = Linked r

module _ {F : Type 0} (fl : Float64 F) where
  abbrev pub Follows : Option (Client F) → Option (Client F) → Type 0
  Follows none none = Unit
  Follows none (some d) = ⊥
  Follows (some c) none = ⊥
  Follows (some c) (some d) = Moves fl c d

  pub stays_put : (c : Option (Client F)) → Follows c c
  stays_put none = tt
  stays_put (some c) = rests

  Follows-some :
      (c e : Option (Client F)) (d : Client F)
      → Follows c e
      → e ≡ some d
      → (b : Client F) × (c ≡ some b) × Moves fl b d
  Follows-some none none d m same = cc
  Follows-some none (some e) d m same = absurd m
  Follows-some (some c) none d m same = absurd m
  Follows-some (some c) (some e) d m same =
      (c, refl, subst (λ (x : Option (Client F)). Follows (some c) x) same m)

  pub keeps-Linked :
      (f : Robot F → Robot F)
      → KeepsIdentity f
      → ((r : Robot F) → Follows r.client (f r).client)
      → (r : Robot F) → Linked r
      → Linked (f r)
  keeps-Linked f same follows r v d has =
      let (c, had, m) = Follows-some r.client (f r).client d (follows r) has in
      let (host, port, served) = v c had in
      let (host', port') = Moves-SameAddress fl m in
      let (_, ip, number) = same r in
      (host' ∙ host ∙ sym ip, port' ∙ port ∙ sym number, Moves-IsServed fl m served)

  -- A change keeps all that is watched for, the links if what happens meanwhile moves the client.
  abbrev pub Kept : (Client F → Client F) → (Robot F → Robot F) → Type 0
  Kept meanwhile f =
      KeepsIdentity f
      × ((r : Robot F) → Listed r → Listed (f r))
      × (Moving fl meanwhile → (r : Robot F) → Follows r.client (f r).client)

  abbrev pub Allows : Watch → (Client F → Client F) → Type 0
  Allows links meanwhile = Moving fl meanwhile
  Allows _ meanwhile = Unit

  pub Kept-Sound :
      (watch : Watch) (meanwhile : Client F → Client F) (f : Robot F → Robot F)
      → Allows watch meanwhile
      → Kept meanwhile f
      → Keeps (Sound watch) f
  Kept-Sound nothing meanwhile f a k = (k.0, λ r v. tt)
  Kept-Sound names meanwhile f a k = (k.0, k.1)
  Kept-Sound links meanwhile f a k = (k.0, keeps-Linked f k.0 (k.2 a))
