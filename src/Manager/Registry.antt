-- ===== src/Manager/Registry.antt =====
-- What the operations of the manager do to the registry, and what holds after any of them.
use rom_go_app.Prelude.{
  ℕ, ◌+◌, ◌%◌, ◌<◌, ◌≡◌, ◌≢◌, refl, ◌⊎◌, inl, inr, String, Bool, true, false, none, some, List, [],
  ◌∷◌, ◌++◌, Float64, if◌then◌else◌, ◌=?◌, get, delete, get-put, get-delete, sprint_int, int_mod,
  int_half, Bool-cases, Option-cases, eq_iff, eq_refl, arith,
}
use rom_go_app.Rosbridge.Client.{Network}
use rom_go_app.Rosbridge.Client.Parsers.{
  Callback, on_map, on_twist, on_tf, on_odom, on_ctrl_odom, on_laser, on_map_bfp,
}
use rom_go_app.Robot.{
  Robot, new_robot, stop_connection, on_callback, on_twist_callback, on_connected, on_disconnected,
}
use rom_go_app.Manager.{
  Manager, already_exists, not_found, has_address, range_first, add_robot, remove_robot,
  switch_robot, get_robot, clear_all,
}
use rom_go_app.Manager.Invariant.{
  Registry, sprint_int-ne-nil, fresh_id, range_first_lem, put_robot-IsRegistry,
  delete_robot-IsRegistry,
}
use rom_go_app.Manager.Updates.{KeepsIdentity}

module _ {F : Type 0} where
  pub on_callback-KeepsIdentity :
      (now : ℕ) (callback : Callback F) → KeepsIdentity (on_callback now callback)
  unfolding on_callback on_twist_callback
  on_callback-KeepsIdentity now (on_map d) r = (refl, refl, refl)
  on_callback-KeepsIdentity now (on_twist d) r = (refl, refl, refl)
  on_callback-KeepsIdentity now (on_tf d) r = (refl, refl, refl)
  on_callback-KeepsIdentity now (on_odom d) r = (refl, refl, refl)
  on_callback-KeepsIdentity now (on_ctrl_odom d) r = (refl, refl, refl)
  on_callback-KeepsIdentity now (on_laser d) r = (refl, refl, refl)
  on_callback-KeepsIdentity now (on_map_bfp d) r = (refl, refl, refl)

  pub on_connected-KeepsIdentity : (net : Network F) → KeepsIdentity (on_connected net)
  unfolding on_connected
  on_connected-KeepsIdentity net r = (refl, refl, refl)

  pub on_disconnected-KeepsIdentity : KeepsIdentity (on_disconnected {F = F})
  unfolding on_disconnected
  on_disconnected-KeepsIdentity r = (refl, refl, refl)

  -- In a well-formed registry whose counter is below 2 ^ 63, a robot cannot be added if one with
  -- its address is there, and nothing changes then; otherwise it is added under a fresh id, the
  -- others stay, and it becomes current if none was.
  pub add_robot_lem :
      (fl : Float64 F) (ns name ip : String) (port : ℕ) (m : Manager F)
      → Registry m
      → m.next_id < int_half
      → let (after, outcome) = add_robot fl ns name ip port m in
        let id = sprint_int m.next_id in
        let r = new_robot fl id ns name ip port in
        ((has_address ip port m.robots ≡ true)
          × (after ≡ m)
          × (outcome.0 ≡ none)
          × (outcome.1 ≡ some (already_exists ip port)))
        ⊎ ((has_address ip port m.robots ≡ false)
            × (get_robot id m ≡ none)
            × (outcome.0 ≡ some r)
            × (outcome.1 ≡ none)
            × ((k : String) → get_robot k after ≡ (if id =? k then some r else get_robot k m))
            × (after.current_id ≡ (if m.current_id =? "" then id else m.current_id)))
  unfolding add_robot get_robot
  add_robot_lem fl ns name ip port m v h = elim (Bool-cases (has_address ip port m.robots)) [
    | inl taken ↦
        inl (
          taken,
          rw (taken, add_robot) refl,
          rw (taken, add_robot) refl,
          rw (taken, add_robot) refl,
        )
    | inr free ↦ inr (
      free,
      fresh_id m v h,
      rw (free, add_robot) refl,
      rw (free, add_robot) refl,
      λ k. rw (free, add_robot) (get-put (sprint_int m.next_id) k _ m.robots),
      rw (free, add_robot) refl,
    )
  ]

  pub add_robot-Registry :
      (fl : Float64 F) (ns name ip : String) (port : ℕ) (m : Manager F)
      → m.next_id + 1 < int_half
      → Registry m
      → Registry (add_robot fl ns name ip port m).0
  unfolding add_robot new_robot
  add_robot-Registry fl ns name ip port m h v = elim (Bool-cases (has_address ip port m.robots)) [
    | inl taken ↦ rw (taken, add_robot) v
    | inr free ↦
        let id = sprint_int m.next_id in
        let wraps : (m.next_id + 1) % int_mod ≡ m.next_id + 1 = omega arith in
        rw (free, add_robot, wraps)
          (put_robot-IsRegistry m.robots m.current_id m.next_id id (new_robot fl id ns name ip port)
            v refl (sprint_int-ne-nil m.next_id (omega arith)) (fresh_id m v (omega arith)) refl
            free)
  ]

  -- The key that a range visits first is that of an entry, if there is one.
  range_first-get :
      (choice : ℕ) (robots : List (String × Robot F))
      → ((robots ≡ []) × (range_first choice robots ≡ ""))
        ⊎ ((s : Robot F) × (get (range_first choice robots) robots ≡ some s))
  unfolding range_first
  range_first-get choice [] = inl (refl, refl)
  range_first-get choice (e ∷ robots) = inr (range_first_lem choice e robots)

  -- To remove an unknown id is an error and changes nothing. A robot that is there is stopped and
  -- goes, the others stay, and if it was current, another one becomes current unless it was the last.
  pub remove_robot_lem :
      (net : Network F) (stop_taken : Bool) (choice : ℕ) (id : String) (m : Manager F)
      → let (after, failure) = remove_robot net stop_taken choice id m in
        ((get_robot id m ≡ none) × (after ≡ m) × (failure ≡ some (not_found id)))
        ⊎ ((r : Robot F) × (get_robot id m ≡ some r)
            × (failure ≡ none)
            × ((k : String) → get_robot k after ≡ (if id =? k then none else get_robot k m))
            × (after.removed ≡ m.removed ++ stop_connection net stop_taken r ∷ [])
            × (m.current_id ≢ id → after.current_id ≡ m.current_id)
            × (m.current_id ≡ id
                → ((after.robots ≡ []) × (after.current_id ≡ ""))
                  ⊎ ((s : Robot F) × (get_robot after.current_id after ≡ some s))))
  unfolding remove_robot get_robot
  remove_robot_lem net stop_taken choice id m = elim (Option-cases (get id m.robots)) [
    | inl e ↦ inl (e, rw (e, remove_robot) refl, rw (e, remove_robot) refl)
    | inr (r, e) ↦ inr (
      r,
      e,
      rw (e, remove_robot) refl,
      λ k. rw (e, remove_robot) (get-delete id k m.robots),
      rw (e, remove_robot) refl,
      λ other. rw (e, remove_robot) (ground (arith, eq_iff m.current_id id)),
      λ same.
          rw (e, remove_robot)
            (rw (same, eq_refl id) (range_first-get choice (delete id m.robots))),
    )
  ]

  pub remove_robot-Registry :
      (net : Network F) (stop_taken : Bool) (choice : ℕ) (id : String) (m : Manager F)
      → Registry m
      → Registry (remove_robot net stop_taken choice id m).0
  unfolding remove_robot
  remove_robot-Registry net stop_taken choice id m v = elim (Option-cases (get id m.robots)) [
    | inl e ↦ rw (e, remove_robot) v
    | inr (r, e) ↦
        rw (e, remove_robot) (delete_robot-IsRegistry m.robots m.current_id m.next_id choice id v)
  ]

  pub switch_robot-Registry :
      (id : String) (m : Manager F) → Registry m → Registry (switch_robot id m).0
  unfolding switch_robot
  switch_robot-Registry id m v = elim (Option-cases (get id m.robots)) [
    | inl e ↦ rw (e, switch_robot) v
    | inr (r, e) ↦
        rw (e, switch_robot)
          (record { numbered = v.numbered; keyed = v.keyed; apart = v.apart; current = inr (r, e) })
  ]

  pub clear_all-Registry :
      (net : Network F) (stop_taken : String → Bool) (m : Manager F)
      → Registry (clear_all net stop_taken m)
  unfolding clear_all
  clear_all-Registry net stop_taken m = record {
    numbered = λ k r e. cc;
    keyed = λ k r e. cc;
    apart = λ j k r s e f p q. cc;
    current = inl (refl, refl);
  }
