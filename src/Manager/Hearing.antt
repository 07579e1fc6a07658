-- ===== src/Manager/Hearing.antt =====
-- What the changes of the registry do to its hub: they broadcast messages to it, and nothing else.
use rom_go_app.Prelude.{
  ℕ, ◌≡◌, refl, ap, String, List, [], ◌∷◌, Float64, get, Bool, Bool-cases, Option-cases, inl, inr,
  arith,
}
use rom_go_app.Rosbridge.Client.{Network}
use rom_go_app.Robot.{Robot}
use rom_go_app.Hub.{Hub}
use rom_go_app.Hub.Delivery.{broadcast_all}
use rom_go_app.Manager.{
  BroadcastMsg, Manager, add_robot, remove_robot, switch_robot, clear_all, update_robot,
  has_address,
}
use rom_go_app.Manager.Evolution.{Evolves, announces, adds, removes, switches, clears, updates}

module _ {F : Type 0} where
  -- The second hub is the first one after some messages.
  abbrev pub Heard : Hub (BroadcastMsg F) → Hub (BroadcastMsg F) → Type 0
  Heard h h' = (msgs : List (BroadcastMsg F)) × (h' ≡ broadcast_all msgs h)

  one_message :
      (msg : BroadcastMsg F) (h : Hub (BroadcastMsg F)) → Heard h (broadcast_all (msg ∷ []) h)
  one_message msg h = (msg ∷ [], refl)

  silence : (h : Hub (BroadcastMsg F)) → Heard h h
  unfolding broadcast_all
  silence h = ([], refl)

  add_robot-Heard :
      (fl : Float64 F) (ns name ip : String) (port : ℕ) (m : Manager F)
      → Heard m.hub (add_robot fl ns name ip port m).0.hub
  unfolding add_robot broadcast_all
  add_robot-Heard fl ns name ip port m = elim (Bool-cases (has_address ip port m.robots)) [
    | inl taken ↦ rw (taken, add_robot) (silence m.hub)
    | inr free ↦ rw (free, add_robot) (one_message _ m.hub)
  ]

  remove_robot-Heard :
      (net : Network F) (stop_taken : Bool) (choice : ℕ) (id : String) (m : Manager F)
      → Heard m.hub (remove_robot net stop_taken choice id m).0.hub
  unfolding remove_robot broadcast_all
  remove_robot-Heard net stop_taken choice id m = elim (Option-cases (get id m.robots)) [
    | inl e ↦ rw (e, remove_robot) (silence m.hub)
    | inr (r, e) ↦ rw (e, remove_robot) (one_message _ m.hub)
  ]

  switch_robot-Heard : (id : String) (m : Manager F) → Heard m.hub (switch_robot id m).0.hub
  unfolding switch_robot broadcast_all
  switch_robot-Heard id m = elim (Option-cases (get id m.robots)) [
    | inl e ↦ rw (e, switch_robot) (silence m.hub)
    | inr (r, e) ↦ rw (e, switch_robot) (one_message _ m.hub)
  ]

  update_robot-hub :
      (id : String) (f : Robot F → Robot F) (m : Manager F) → (update_robot id f m).hub ≡ m.hub
  unfolding update_robot
  update_robot-hub id f m = ground arith

  pub evolve-Heard :
      (fl : Float64 F) (P : Robot F → Type 0) (m m' : Manager F)
      → Evolves fl P m m'
      → Heard m.hub m'.hub
  unfolding clear_all
  evolve-Heard fl P m m' (announces msgs) = (msgs, refl)
  evolve-Heard fl P m m' (adds ns name ip port) = add_robot-Heard fl ns name ip port m
  evolve-Heard fl P m m' (removes net stop_taken choice id) =
      remove_robot-Heard net stop_taken choice id m
  evolve-Heard fl P m m' (switches id) = switch_robot-Heard id m
  evolve-Heard fl P m m' (clears net stop_taken) = silence m.hub
  evolve-Heard fl P m m' (updates id f msgs keeps) =
      (msgs, ap (broadcast_all msgs) (update_robot-hub id f m))
