-- ===== src/Manager/History.antt =====
-- The registry after any sequence of operations.
use rom_go_app.Prelude.{
  ℕ, ◌+◌, ◌<◌, ◌≤◌, ◌≡◌, ◌≢◌, sym, ◌∙◌, ◌⊎◌, inl, inr, String, false, none, some, List, [], ◌∷◌,
  Float64, ◌=?◌, length, sprint_int, int_half, arith, eq_refl, =?-false,
}
use rom_go_app.Rosbridge.Client.{Network}
use rom_go_app.Robot.{Robot, new_robot, on_callback, on_connected, on_disconnected}
use rom_go_app.Manager.{
  Manager, add_robot, remove_robot, switch_robot, get_current_robot, clear_all, update_robot,
  deliver, robot_connected, robot_disconnected,
}
use rom_go_app.Manager.Steps.{
  Op, adds, removes, switches, clears, delivers, connects, disconnects, step, run,
}
use rom_go_app.Manager.Invariant.{Registry, sprint_int-injective, sprint_int-ne-nil}
use rom_go_app.Manager.Updates.{update_robot-Registry}
use rom_go_app.Manager.Registry.{
  on_callback-KeepsIdentity, on_connected-KeepsIdentity, on_disconnected-KeepsIdentity,
  add_robot-Registry, remove_robot-Registry, switch_robot-Registry, clear_all-Registry,
}

module _ {F : Type 0} where
  update_robot-next_id :
      (id : String) (f : Robot F → Robot F) (m : Manager F)
      → (update_robot id f m).next_id ≡ m.next_id
  unfolding update_robot
  update_robot-next_id id f m = ground arith

  current_robot :
      (m : Manager F)
      → m.next_id < int_half
      → Registry m
      → ((m.robots ≡ []) × (get_current_robot m ≡ none))
        ⊎ ((r : Robot F) × (get_current_robot m ≡ some r))
  unfolding get_current_robot
  current_robot m h v = elim v.current [
    | inl (none_there, empty) ↦ inl (none_there, ground (arith, empty, eq_refl ""))
    | inr (r, e) ↦
        let (n, numeral, low) = v.numbered m.current_id r e in
        let named : (m.current_id =? "") ≡ false =
          =?-false m.current_id ""
            (λ empty. sprint_int-ne-nil n (omega arith) (sym numeral ∙ empty)) in
        inr (r, rw (named, get_current_robot) e)
  ]

  added-id :
      (fl : Float64 F) (ns name ip : String) (port : ℕ) (m : Manager F) {r : Robot F}
      → (add_robot fl ns name ip port m).1.0 ≡ some r
      → r.id ≡ sprint_int m.next_id
  unfolding add_robot new_robot
  added-id fl ns name ip port m e = ground arith

  added-next_id :
      (fl : Float64 F) (ns name ip : String) (port : ℕ) (m : Manager F) {r : Robot F}
      → m.next_id + 1 < int_half
      → (add_robot fl ns name ip port m).1.0 ≡ some r
      → (add_robot fl ns name ip port m).0.next_id ≡ m.next_id + 1
  unfolding add_robot
  added-next_id fl ns name ip port m h e = ground arith

module _ {F : Type 0} (fl : Float64 F) (net : Network F) where
  pub step-Registry :
      (m : Manager F) (op : Op F)
      → m.next_id + 1 < int_half
      → Registry m
      → Registry (step fl net m op)
  unfolding step deliver robot_connected robot_disconnected
  step-Registry m (adds ns name ip port) h v = add_robot-Registry fl ns name ip port m h v
  step-Registry m (removes stop_taken choice id) h v =
      remove_robot-Registry net stop_taken choice id m v
  step-Registry m (switches id) h v = switch_robot-Registry id m v
  step-Registry m (clears stop_taken) h v = clear_all-Registry net stop_taken m
  step-Registry m (delivers now id callback) h v =
      update_robot-Registry id _ m (on_callback-KeepsIdentity now callback) v
  step-Registry m (connects id) h v =
      update_robot-Registry id _ m (on_connected-KeepsIdentity net) v
  step-Registry m (disconnects id) h v =
      update_robot-Registry id _ m on_disconnected-KeepsIdentity v

  -- No operation lowers the counter, and each raises it by one at most.
  pub step-next_id :
      (m : Manager F) (op : Op F)
      → m.next_id + 1 < int_half
      → (m.next_id ≤ (step fl net m op).next_id) × ((step fl net m op).next_id ≤ m.next_id + 1)
  unfolding step deliver robot_connected robot_disconnected add_robot remove_robot switch_robot
      clear_all
  step-next_id m (adds ns name ip port) h = ground arith
  step-next_id m (removes stop_taken choice id) h = ground arith
  step-next_id m (switches id) h = ground arith
  step-next_id m (clears stop_taken) h = omega arith
  step-next_id m (delivers now id callback) h =
      omega (arith, update_robot-next_id id (on_callback now callback) m)
  step-next_id m (connects id) h = omega (arith, update_robot-next_id id (on_connected net) m)
  step-next_id m (disconnects id) h = omega (arith, update_robot-next_id id on_disconnected m)

  pub run-Registry :
      (m : Manager F) (ops : List (Op F))
      → m.next_id + length ops < int_half
      → Registry m
      → Registry (run fl net m ops)
        × (m.next_id ≤ (run fl net m ops).next_id)
        × ((run fl net m ops).next_id ≤ m.next_id + length ops)
  unfolding run
  run-Registry m [] h v = (v, omega arith, omega arith)
  run-Registry m (op ∷ ops) h v =
      let (low, high) = step-next_id m op (omega arith) in
      let (v', low', high') =
        run-Registry (step fl net m op) ops (omega arith) (step-Registry m op (omega arith) v) in
      (v', omega arith, omega arith)

  -- An id is never given out twice, also after its robot is removed: two successful additions to a
  -- well-formed registry, with any operations between them, return robots with different ids,
  -- while the counter and the number of operations stay below 2 ^ 63 together.
  pub ids_never_reused :
      (ns ns' name name' ip ip' : String) (port port' : ℕ) (m : Manager F) (ops : List (Op F))
      {r r' : Robot F}
      → Registry m
      → m.next_id + 1 + length ops < int_half
      → (add_robot fl ns name ip port m).1.0 ≡ some r
      → (add_robot fl ns' name' ip' port' (run fl net (add_robot fl ns name ip port m).0 ops)).1.0
        ≡ some r'
      → r.id ≢ r'.id
  ids_never_reused ns ns' name name' ip ip' port port' m ops {r} {r'} v h e e' =
      let m₁ = (add_robot fl ns name ip port m).0 in
      let next = added-next_id fl ns name ip port m (omega arith) e in
      let (_, low, high) =
        run-Registry m₁ ops (omega arith)
          (add_robot-Registry fl ns name ip port m (omega arith) v) in
      let id = added-id fl ns name ip port m e in
      let id' = added-id fl ns' name' ip' port' (run fl net m₁ ops) e' in
      λ same. absurd (
        omega (
          arith,
          sprint_int-injective m.next_id (run fl net m₁ ops).next_id (omega arith) (omega arith)
              (sym id ∙ same ∙ id'),
        ))
