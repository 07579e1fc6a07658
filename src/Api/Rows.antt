-- ===== src/Api/Rows.antt =====
-- The list of robots that a browser is shown.
use rom_go_app.Prelude.{
  ◌+◌, ◌<◌, ◌≡◌, refl, sym, ◌∙◌, ap, ◌⊎◌, inl, inr, String, true, false, none, some, List, [], ◌∷◌,
  ◌++◌, map, Float64, ◌=?◌, get, length, int_half, All, Bool-cases, eq_iff, eq_refl, arith,
}
use rom_go_app.Rosbridge.Client.{Network}
use rom_go_app.Robot.{Robot, get_snapshot}
use rom_go_app.Manager.{new_manager, get_all_robots, get_current_robot_id}
use rom_go_app.Manager.Invariant.{new_manager-Registry}
use rom_go_app.Manager.Steps.{Op, run}
use rom_go_app.Manager.Keys.{Apart, run-Apart}
use rom_go_app.Manager.History.{run-Registry}
use rom_go_app.Api.Lists.{RobotRow, robot_row, list_robots}

-- One row is marked, and it is that of `id`.
pub record MarksOne (id : String) (rows : List RobotRow) : Type 0 where
  pub before : List RobotRow
  pub row : RobotRow
  pub after : List RobotRow
  pub split : rows ≡ before ++ row ∷ after
  pub own_id : row.id ≡ id
  pub marked : row.current ≡ true
  pub others_before : All (λ (o : RobotRow). o.current ≡ false) before
  pub others_after : All (λ (o : RobotRow). o.current ≡ false) after

module _ {F : Type 0} where
  -- Each robot stands under its own id.
  abbrev Keyed : List (String × Robot F) → Type 0
  Keyed = All (λ (e : String × Robot F). e.1.id ≡ e.0)

  Apart-Keyed :
      (robots : List (String × Robot F))
      → Apart robots
      → ((k : String) (r : Robot F) → get k robots ≡ some r → r.id ≡ k)
      → Keyed robots
  Apart-Keyed [] a own = tt
  Apart-Keyed ((k, r) ∷ robots) (new, a) own = (
    own k r (ground (arith, eq_refl k)),
    Apart-Keyed robots a (λ j s e. own j s (ground (arith, eq_iff k j))),
  )

  module _ (fl : Float64 F) where
    abbrev rows_of : String → List (String × Robot F) → List RobotRow
    rows_of id robots = map (robot_row fl id) (map (λ (e : String × Robot F). e.1) robots)

    unmarked :
        (id : String) (robots : List (String × Robot F))
        → Keyed robots
        → get id robots ≡ none
        → All (λ (o : RobotRow). o.current ≡ false) (rows_of id robots)
    unfolding robot_row get_snapshot
    unmarked id [] own e = tt
    unmarked id ((k, r) ∷ robots) (at_k, own) e =
        (ground (arith, at_k), unmarked id robots own (ground arith))

    marks-MarksOne :
        (id : String) (robots : List (String × Robot F)) (r : Robot F)
        → Keyed robots
        → Apart robots
        → get id robots ≡ some r
        → MarksOne id (rows_of id robots)
    unfolding robot_row get_snapshot
    marks-MarksOne id [] r own a e = cc
    marks-MarksOne id ((k, s) ∷ robots) r (at_k, own) (new, a) e = elim (Bool-cases (k =? id)) [
      | inl here ↦
          let same : k ≡ id = ground (arith, eq_iff k id) in
          record {
            before = [];
            row = robot_row fl id s;
            after = rows_of id robots;
            split = refl;
            own_id = at_k ∙ same;
            marked = ground (arith, at_k);
            others_before = tt;
            others_after =
                unmarked id robots own (ap (λ (j : String). get j robots) (sym same) ∙ new);
          }
      | inr away ↦
          let rest = marks-MarksOne id robots r own a (ground arith) in
          record {
            before = robot_row fl id s ∷ rest.before;
            row = rest.row;
            after = rest.after;
            split = ap (λ (l : List RobotRow). robot_row fl id s ∷ l) rest.split;
            own_id = rest.own_id;
            marked = rest.marked;
            others_before = (ground (arith, at_k), rest.others_before);
            others_after = rest.others_after;
          }
    ]

    -- After fewer than 2 ^ 63 - 1 operations on a new manager the list of robots is empty, or marks
    -- exactly one of them as current, the one with the current id.
    pub list_robots-MarksOne :
        (net : Network F) (ops : List (Op F))
        → 1 + length ops < int_half
        → let m = run fl net new_manager ops in
          (list_robots fl m ≡ []) ⊎ MarksOne m.current_id (list_robots fl m)
    unfolding list_robots get_all_robots get_current_robot_id new_manager
    list_robots-MarksOne net ops h =
        let m = run fl net new_manager ops in
        let (v, _, _) = run-Registry fl net new_manager ops h new_manager-Registry in
        let apart = run-Apart fl net new_manager ops tt in
        elim v.current [
          | inl (none_there, _) ↦ inl (rw none_there refl)
          | inr (r, e) ↦
              inr (
                marks-MarksOne m.current_id m.robots r (Apart-Keyed m.robots apart v.keyed) apart e)
        ]
