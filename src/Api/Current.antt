-- ===== src/Api/Current.antt =====
-- The common start of the handlers that act on the current robot.
use rom_go_app.Prelude.{String, none, some, ◌≡◌, refl, ap, arith, put_same, Option-cases, inl, inr}
use rom_go_app.Robot.{Robot}
use rom_go_app.Manager.{Manager, get_robot, get_current_robot, update_robot}
use rom_go_app.Api.{
  Status, success, method_not_allowed, bad_request, conflict, not_found, service_unavailable,
  internal_error,
}

-- The statuses with which a handler turns a request down before it acts.
abbrev pub IsRefusal : Status → Type 0
IsRefusal success = ⊥
IsRefusal internal_error = ⊥
IsRefusal method_not_allowed = Unit
IsRefusal bad_request = Unit
IsRefusal conflict = Unit
IsRefusal not_found = Unit
IsRefusal service_unavailable = Unit

module _ {F : Type 0} where
  -- `rb := s.Manager.GetCurrentRobot()` and the answer where it is nil. The body works on the robot
  -- that the pointer leads to.
  unfoldable pub on_current : (Robot F → Robot F × Status) → Manager F → Manager F × Status
  on_current f m = elim (get_current_robot m) [
    | none ↦ (m, bad_request)
    | some r ↦ (update_robot m.current_id (λ s. (f s).0) m, (f r).1)
  ]

  pub update_robot_same :
      (id : String) (f : Robot F → Robot F) (m : Manager F) (r : Robot F)
      → get_robot id m ≡ some r
      → f r ≡ r
      → update_robot id f m ≡ m
  unfolding update_robot get_robot
  update_robot_same id f m r e same =
      rw (e, update_robot)
        (ap (λ robots. record m { robots = robots }) (rw same (put_same id r m.robots e)))

  pub update_robot_absent :
      (id : String) (f : Robot F → Robot F) (m : Manager F)
      → get_robot id m ≡ none
      → update_robot id f m ≡ m
  unfolding update_robot get_robot
  update_robot_absent id f m e = rw (e, update_robot) refl

  pub get_current-get :
      (m : Manager F) (r : Robot F)
      → get_current_robot m ≡ some r
      → get_robot m.current_id m ≡ some r
  unfolding get_current_robot get_robot
  get_current-get m r e = ground arith

  pub on_current_refused :
      (f : Robot F → Robot F × Status) (m : Manager F)
      → ((r : Robot F) → IsRefusal (f r).1 → (f r).0 ≡ r)
      → IsRefusal (on_current f m).1
      → (on_current f m).0 ≡ m
  unfolding on_current
  on_current_refused f m keeps h = elim (Option-cases (get_current_robot m)) [
    | inl e ↦ rw (e, on_current) refl
    | inr (r, e) ↦
        rw (e, on_current)
          (update_robot_same m.current_id (λ s. (f s).0) m r (get_current-get m r e)
            (keeps r (rw (e, on_current) at h)))
  ]
