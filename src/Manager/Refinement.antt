-- ===== src/Manager/Refinement.antt =====
-- The registry keeps what a directory promises.
use rom_go_app.Prelude.{
  ℕ, ◌+◌, ◌<◌, ◌≡◌, ◌≢◌, refl, sym, ◌∙◌, ap, ◌⊎◌, inl, inr, String, Bool, true, false, none, some,
  List, [], ◌∷◌, Float64, if◌then◌else◌, ◌=?◌, get, get-put, sprint_int, length, int_half,
  Bool-cases, Option-cases, eq_iff, arith,
}
use rom_go_app.Rosbridge.Client.{Network}
use rom_go_app.Robot.{Robot, on_callback, on_connected, on_disconnected}
use rom_go_app.Manager.{
  Manager, new_manager, has_address, add_robot, remove_robot, switch_robot, get_robot,
  get_current_robot_id, clear_all, update_robot, deliver, robot_connected, robot_disconnected,
}
use rom_go_app.Manager.Steps.{
  Op, adds, removes, switches, clears, delivers, connects, disconnects, step, run,
}
use rom_go_app.Manager.Invariant.{
  Registry, has_address-true, sprint_int-ne-nil, new_manager-Registry,
}
use rom_go_app.Manager.Keys.{Apart, has_address-some, step-Apart}
use rom_go_app.Manager.Registry.{add_robot_lem, remove_robot_lem}
use rom_go_app.Manager.History.{step-Registry, step-next_id}
use rom_go_app.Manager.Directory.{
  view, nobody, Shows, Unchanged, AddressTaken, changed, Chosen, Promises, Leads,
}

module _ {F : Type 0} where
  unchanged : (m m' : Manager F) → m' ≡ m → Unchanged (view m) (view m')
  unchanged m m' e = record {
    shown = λ k. ap (λ (n : Manager F). get_robot k n) e;
    chosen = ap (λ (n : Manager F). get_current_robot_id n) e;
  }

  taken-address :
      (ip : String) (port : ℕ) (m : Manager F)
      → Apart m.robots
      → has_address ip port m.robots ≡ true
      → AddressTaken ip port (view m)
  unfolding get_robot
  taken-address ip port m a h = has_address-some ip port m.robots a h

  free-address :
      (ip : String) (port : ℕ) (m : Manager F)
      → has_address ip port m.robots ≡ false
      → ¬ AddressTaken ip port (view m)
  unfolding get_robot
  free-address ip port m h (k, r, e, p, q) = cc (has_address-true ip port m.robots k r e p q)

  update_robot-Shows :
      (id : String) (f : Robot F → Robot F) (m : Manager F)
      → Shows (view (update_robot id f m)) (changed id f (view m)) m.current_id
  unfolding update_robot get_robot get_current_robot_id
  update_robot-Shows id f m = elim (Option-cases (get id m.robots)) [
    | inl e ↦ record {
      shown = λ k. ground (arith, e, eq_iff id k);
      chosen = rw (e, update_robot) refl;
    }
    | inr (r, e) ↦ record {
      shown = λ k. ground (arith, e, get-put id k (f r) m.robots);
      chosen = rw (e, update_robot) refl;
    }
  ]

  current_id-Chosen :
      (id : String) (m after : Manager F)
      → ((k : String) → get_robot k after ≡ (if id =? k then none else get_robot k m))
      → (m.current_id ≢ id → after.current_id ≡ m.current_id)
      → (m.current_id ≡ id
          → ((after.robots ≡ []) × (after.current_id ≡ ""))
            ⊎ ((s : Robot F) × (get_robot after.current_id after ≡ some s)))
      → Chosen id (view m) after.current_id
  unfolding get_robot get_current_robot_id
  current_id-Chosen id m after shown other current = elim (Bool-cases (m.current_id =? id)) [
    | inl same ↦
        let here : m.current_id ≡ id = ground (arith, eq_iff m.current_id id) in
        elim (current here) [
          | inl (last, blank) ↦ inr (
              inl (
                here,
                λ k. sym (shown k) ∙ ap (λ (robots : List (String × Robot F)). get k robots) last,
                blank,
              ))
          | inr (s, e) ↦ inr (inr (here, (s, sym (shown after.current_id) ∙ e)))
        ]
    | inr away ↦
        let apart : m.current_id ≢ id = ground (arith, eq_iff m.current_id id) in
        inl (apart, other apart)
  ]

module _ {F : Type 0} (fl : Float64 F) (net : Network F) where
  add_robot-Promises :
      (ns name ip : String) (port : ℕ) (m : Manager F)
      → Registry m
      → Apart m.robots
      → m.next_id < int_half
      → Promises fl net (adds ns name ip port) (view m) (view (add_robot fl ns name ip port m).0)
  unfolding get_current_robot_id
  add_robot-Promises ns name ip port m v a h = elim (add_robot_lem fl ns name ip port m v h) [
    | inl (taken, same, _, _) ↦ inl (taken-address ip port m a taken, unchanged m _ same)
    | inr (free, new, _, _, shown, chosen) ↦ inr (
      free-address ip port m free,
      (
        sprint_int m.next_id,
        sprint_int-ne-nil m.next_id h,
        new,
        record { shown = shown; chosen = chosen },
      ),
    )
  ]

  remove_robot-Promises :
      (stop_taken : Bool) (choice : ℕ) (id : String) (m : Manager F)
      → Promises fl net
          (removes stop_taken choice id)
          (view m)
          (view (remove_robot net stop_taken choice id m).0)
  unfolding get_current_robot_id
  remove_robot-Promises stop_taken choice id m =
      elim (remove_robot_lem net stop_taken choice id m) [
        | inl (none_there, same, _) ↦ inl (none_there, unchanged m _ same)
        | inr (r, found, _, shown, _, other, current) ↦ inr (
          r,
          found,
          current_id-Chosen id m _ shown other current,
          record { shown = shown; chosen = refl },
        )
      ]

  switch_robot-Promises :
      (id : String) (m : Manager F)
      → Promises fl net (switches id) (view m) (view (switch_robot id m).0)
  unfolding switch_robot get_robot get_current_robot_id
  switch_robot-Promises id m = elim (Option-cases (get id m.robots)) [
    | inl e ↦ inl (e, unchanged m (switch_robot id m).0 (rw (e, switch_robot) refl))
    | inr (r, e) ↦ inr (
      r,
      e,
      record { shown = λ k. rw (e, switch_robot) refl; chosen = rw (e, switch_robot) refl },
    )
  ]

  step-Promises :
      (m : Manager F) (op : Op F)
      → Registry m
      → Apart m.robots
      → m.next_id < int_half
      → Promises fl net op (view m) (view (step fl net m op))
  unfolding step clear_all deliver robot_connected robot_disconnected get_robot get_current_robot_id
  step-Promises m (adds ns name ip port) v a h = add_robot-Promises ns name ip port m v a h
  step-Promises m (removes stop_taken choice id) v a h =
      remove_robot-Promises stop_taken choice id m
  step-Promises m (switches id) v a h = switch_robot-Promises id m
  step-Promises m (clears stop_taken) v a h = record { shown = λ k. refl; chosen = refl }
  step-Promises m (delivers now id callback) v a h =
      let s = update_robot-Shows id (on_callback now callback) m in
      record { shown = s.shown; chosen = s.chosen }
  step-Promises m (connects id) v a h =
      let s = update_robot-Shows id (on_connected net) m in
      record { shown = s.shown; chosen = s.chosen }
  step-Promises m (disconnects id) v a h =
      let s = update_robot-Shows id on_disconnected m in
      record { shown = s.shown; chosen = s.chosen }

  run-Leads :
      (m : Manager F) (ops : List (Op F))
      → m.next_id + length ops < int_half
      → Registry m
      → Apart m.robots
      → Leads fl net ops (view m) (view (run fl net m ops))
  unfolding run
  run-Leads m [] h v a = record { shown = λ k. refl; chosen = refl }
  run-Leads m (op ∷ ops) h v a =
      let (low, high) = step-next_id fl net m op (omega arith) in
      (
        view (step fl net m op),
        step-Promises m op v a (omega arith),
        run-Leads (step fl net m op) ops (omega arith) (step-Registry fl net m op (omega arith) v)
            (step-Apart fl net m op a),
      )

  -- The registry refines the directory: whatever fewer than 2 ^ 63 - 1 operations are done on a new
  -- manager, the robots by their ids and the current id change as the directory promises for each of
  -- them, in their order, from the empty directory to what the registry then shows. An addition is
  -- refused exactly if a robot has the address, and else takes an id that no robot has.
  pub run-refines :
      (ops : List (Op F))
      → 1 + length ops < int_half
      → Leads fl net ops nobody (view (run fl net new_manager ops))
  unfolding new_manager get_robot get_current_robot_id
  run-refines ops h = run-Leads new_manager ops h new_manager-Registry tt
