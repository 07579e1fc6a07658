-- ===== src/Manager/Evolution.antt =====
-- The changes that any part of the server makes to the registry, and what each of them keeps.
use rom_go_app.Prelude.{
  ℕ, ◌+◌, ◌<◌, ◌≤◌, ◌≡◌, subst, inl, inr, String, Bool, some, Float64, List, get, get-put-some,
  get-delete-some, Bool-cases, Option-cases, arith, sprint_int, int_half,
}
use rom_go_app.Rosbridge.Client.{Network}
use rom_go_app.Robot.{Robot, new_robot}
use rom_go_app.Hub.Delivery.{broadcast_all}
use rom_go_app.Manager.{
  BroadcastMsg, Manager, add_robot, remove_robot, switch_robot, clear_all, update_robot,
  has_address, get_robot,
}
use rom_go_app.Manager.Invariant.{Registry}
use rom_go_app.Manager.Updates.{KeepsIdentity, update_robot-Registry}
use rom_go_app.Manager.Registry.{
  add_robot-Registry, remove_robot-Registry, switch_robot-Registry, clear_all-Registry,
}

-- A change of a robot that keeps its identity and a property of it.
abbrev pub Keeps : {F : Type 0} → (Robot F → Type 0) → (Robot F → Robot F) → Type 0
Keeps {F} P f = KeepsIdentity f × ((r : Robot F) → P r → P (f r))

-- One change of the registry `m`: messages, an operation on the set of robots, or a change of one
-- robot.
pub data Evolves {F : Type 0} (fl : Float64 F) (P : Robot F → Type 0) (m : Manager F)
    : Manager F → Type 0 where
  announces :
      (msgs : List (BroadcastMsg F)) → Evolves fl P m (record m { hub = broadcast_all msgs m.hub })
  adds : (ns name ip : String) (port : ℕ) → Evolves fl P m (add_robot fl ns name ip port m).0
  removes :
      (net : Network F) (stop_taken : Bool) (choice : ℕ) (id : String)
      → Evolves fl P m (remove_robot net stop_taken choice id m).0
  switches : (id : String) → Evolves fl P m (switch_robot id m).0
  clears :
      (net : Network F) (stop_taken : String → Bool) → Evolves fl P m (clear_all net stop_taken m)
  updates :
      (id : String) (f : Robot F → Robot F) (msgs : List (BroadcastMsg F))
      → Keeps P f
      → Evolves fl P m
          (record (update_robot id f m) { hub = broadcast_all msgs (update_robot id f m).hub })

module _ {F : Type 0} (P : Robot F → Type 0) where
  -- Every robot in the registry has the property.
  abbrev pub Throughout : Manager F → Type 0
  Throughout m = (k : String) (r : Robot F) → get_robot k m ≡ some r → P r

  add_robot-Throughout :
      (fl : Float64 F) (ns name ip : String) (port : ℕ) (m : Manager F)
      → ((id : String) → P (new_robot fl id ns name ip port))
      → Throughout m
      → Throughout (add_robot fl ns name ip port m).0
  unfolding add_robot get_robot
  add_robot-Throughout fl ns name ip port m fresh all k r =
      elim (Bool-cases (has_address ip port m.robots)) [
        | inl taken ↦ λ e. all k r (rw (taken, add_robot) at e)
        | inr free ↦ λ e.
            elim (get-put-some (sprint_int m.next_id) k _ m.robots (rw (free, add_robot) at e)) [
              | inl (here, new) ↦ subst P new (fresh (sprint_int m.next_id))
              | inr (away, old) ↦ all k r old
            ]
      ]

  remove_robot-Throughout :
      (net : Network F) (stop_taken : Bool) (choice : ℕ) (id : String) (m : Manager F)
      → Throughout m
      → Throughout (remove_robot net stop_taken choice id m).0
  unfolding remove_robot get_robot
  remove_robot-Throughout net stop_taken choice id m all k r =
      elim (Option-cases (get id m.robots)) [
        | inl gone ↦ λ e. all k r (rw (gone, remove_robot) at e)
        | inr (s, found) ↦
            λ e. all k r (get-delete-some id k m.robots (rw (found, remove_robot) at e)).1
      ]

  update_robot-Throughout :
      (id : String) (f : Robot F → Robot F) (m : Manager F)
      → ((r : Robot F) → P r → P (f r))
      → Throughout m
      → Throughout (update_robot id f m)
  unfolding update_robot get_robot
  update_robot-Throughout id f m keeps all k r = elim (Option-cases (get id m.robots)) [
    | inl gone ↦ λ e. all k r (rw (gone, update_robot) at e)
    | inr (s, found) ↦ λ e.
        elim (get-put-some id k (f s) m.robots (rw (found, update_robot) at e)) [
          | inl (here, new) ↦ subst P new (keeps s (all id s found))
          | inr (away, old) ↦ all k r old
        ]
  ]

  switch_robot-Throughout :
      (id : String) (m : Manager F) → Throughout m → Throughout (switch_robot id m).0
  unfolding switch_robot get_robot
  switch_robot-Throughout id m all k r = elim (Option-cases (get id m.robots)) [
    | inl gone ↦ λ e. all k r (rw (gone, switch_robot) at e)
    | inr (s, found) ↦ λ e. all k r (rw (found, switch_robot) at e)
  ]

module _ {F : Type 0} (fl : Float64 F) (P : Robot F → Type 0) where
  pub evolve-Registry :
      (m m' : Manager F) → Evolves fl P m m' → m.next_id + 1 < int_half → Registry m → Registry m'
  evolve-Registry m m' (announces msgs) low v = v
  evolve-Registry m m' (adds ns name ip port) low v = add_robot-Registry fl ns name ip port m low v
  evolve-Registry m m' (removes net stop_taken choice id) low v =
      remove_robot-Registry net stop_taken choice id m v
  evolve-Registry m m' (switches id) low v = switch_robot-Registry id m v
  evolve-Registry m m' (clears net stop_taken) low v = clear_all-Registry net stop_taken m
  evolve-Registry m m' (updates id f msgs keeps) low v = update_robot-Registry id f m keeps.0 v

  pub evolve-next_id :
      (m m' : Manager F) → Evolves fl P m m' → m.next_id + 1 < int_half → m'.next_id ≤ m.next_id + 1
  unfolding add_robot remove_robot switch_robot clear_all update_robot
  evolve-next_id m m' (announces msgs) low = omega arith
  evolve-next_id m m' (adds ns name ip port) low = ground arith
  evolve-next_id m m' (removes net stop_taken choice id) low = ground arith
  evolve-next_id m m' (switches id) low = ground arith
  evolve-next_id m m' (clears net stop_taken) low = omega arith
  evolve-next_id m m' (updates id f msgs keeps) low = ground arith

  pub evolve-Throughout :
      (m m' : Manager F)
      → Evolves fl P m m'
      → ((id ns name ip : String) (port : ℕ) → P (new_robot fl id ns name ip port))
      → Throughout P m
      → Throughout P m'
  unfolding clear_all get_robot
  evolve-Throughout m m' (announces msgs) fresh all = all
  evolve-Throughout m m' (adds ns name ip port) fresh all =
      add_robot-Throughout P fl ns name ip port m (λ id. fresh id ns name ip port) all
  evolve-Throughout m m' (removes net stop_taken choice id) fresh all =
      remove_robot-Throughout P net stop_taken choice id m all
  evolve-Throughout m m' (switches id) fresh all = switch_robot-Throughout P id m all
  evolve-Throughout m m' (clears net stop_taken) fresh all = λ k r e. cc
  evolve-Throughout m m' (updates id f msgs keeps) fresh all =
      update_robot-Throughout P id f m keeps.1 all
