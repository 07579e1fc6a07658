-- ===== src/Navigation.antt =====
-- robot/navigation.go: the navigation points of a robot. The additions run under the lock of
-- `NavigationManager`, the other edits under the robot's own; here each is one step.
pub mod Names
pub mod Edits
pub mod Remote
use rom_go_app.Prelude.{
  ℕ, String, Bool, true, false, Option, none, some, List, [], ◌∷◌, ◌++◌, Float64, if◌then◌else◌,
  ◌=?◌, length,
}
use rom_go_app.Rosbridge.Types.{NavigationPoint, WallObstacle}
use rom_go_app.Robot.{Robot}

-- The two messages of `validateAndCreate`, and that of `AddWallObstacle`.
pub data NavError : Type 0 where
  empty_name : String → NavError
  duplicate_name : String → String → NavError
  empty_wall_name : NavError

pub data Checked (A : Type 0) : Type 0 where
  valid : A → Checked A
  invalid : NavError → Checked A

module _ {F : Type 0} where
  unfoldable pub has_name : String → List (NavigationPoint F) → Bool
  has_name name [] = false
  has_name name (p ∷ pts) = if p.name =? name then true else has_name name pts

  -- The list that `validateAndCreate` reads for a point type; an unknown type reads none.
  unfoldable pub existing : String → Robot F → List (NavigationPoint F)
  existing point_type r =
      if point_type =? "waypoint"
      then r.waypoints
      else if point_type =? "servicepoint"
      then r.service_points
      else if point_type =? "patrolpoint"
      then r.patrol_points
      else if point_type =? "pathpoint"
      then r.path_points
      else []

  unfoldable pub remove_by_name : List (NavigationPoint F) → String → List (NavigationPoint F)
  remove_by_name [] name = []
  remove_by_name (p ∷ pts) name =
      if p.name =? name then remove_by_name pts name else p ∷ remove_by_name pts name

module _ {F : Type 0} (fl : Float64 F) where
  open fl use {zero_float}

  unfoldable pub validate_and_create :
      Robot F → String → String → F → F → F → Checked (NavigationPoint F)
  validate_and_create r point_type name x y theta =
      if name =? ""
      then invalid (empty_name point_type)
      else if has_name name (existing point_type r)
      then invalid (duplicate_name point_type name)
      else valid (record {
        name = name;
        image_x_px = zero_float;
        image_y_px = zero_float;
        image_theta_deg = zero_float;
        world_x_m = x;
        world_y_m = y;
        world_theta_rad = theta;
      })

  unfoldable pub add_waypoint : String → F → F → F → Robot F → Robot F × Option NavError
  add_waypoint name x y theta r = elim (validate_and_create r "waypoint" name x y theta) [
    | valid pt ↦ (record r { waypoints = r.waypoints ++ pt ∷ [] }, none)
    | invalid e ↦ (r, some e)
  ]

  unfoldable pub add_service_point : String → F → F → F → Robot F → Robot F × Option NavError
  add_service_point name x y theta r = elim (validate_and_create r "servicepoint" name x y theta) [
    | valid pt ↦ (record r { service_points = r.service_points ++ pt ∷ [] }, none)
    | invalid e ↦ (r, some e)
  ]

  unfoldable pub add_patrol_point : String → F → F → F → Robot F → Robot F × Option NavError
  add_patrol_point name x y theta r = elim (validate_and_create r "patrolpoint" name x y theta) [
    | valid pt ↦ (record r { patrol_points = r.patrol_points ++ pt ∷ [] }, none)
    | invalid e ↦ (r, some e)
  ]

  unfoldable pub add_path_point : String → F → F → F → Robot F → Robot F × Option NavError
  add_path_point name x y theta r = elim (validate_and_create r "pathpoint" name x y theta) [
    | valid pt ↦ (record r { path_points = r.path_points ++ pt ∷ [] }, none)
    | invalid e ↦ (r, some e)
  ]

  unfoldable pub add_wall_obstacle : String → F → F → F → F → Robot F → Robot F × Option NavError
  add_wall_obstacle name x1 y1 x2 y2 r = if name =? "" then (r, some empty_wall_name) else (
    record r {
      wall_obstacles =
          r.wall_obstacles
          ++ record {
            image_x_px_start = zero_float;
            image_y_px_start = zero_float;
            image_x_px_end = zero_float;
            image_y_px_end = zero_float;
            world_x_m_start = x1;
            world_y_m_start = y1;
            world_x_m_end = x2;
            world_y_m_end = y2;
          }
            ∷ [];
    },
    none,
  )

module _ {F : Type 0} where
  unfoldable pub clear_waypoints : Robot F → Robot F
  clear_waypoints r = record r { waypoints = [] }

  unfoldable pub clear_service_points : Robot F → Robot F
  clear_service_points r = record r { service_points = [] }

  unfoldable pub clear_patrol_points : Robot F → Robot F
  clear_patrol_points r = record r { patrol_points = [] }

  unfoldable pub clear_path_points : Robot F → Robot F
  clear_path_points r = record r { path_points = [] }

  unfoldable pub clear_all_points : Robot F → Robot F
  clear_all_points r = record r {
    waypoints = [];
    service_points = [];
    patrol_points = [];
    path_points = [];
    wall_obstacles = [];
  }

  unfoldable pub delete_point : String → String → Robot F → Robot F
  delete_point point_type name r =
      if point_type =? "waypoint"
      then record r { waypoints = remove_by_name r.waypoints name }
      else if point_type =? "service_point"
      then record r { service_points = remove_by_name r.service_points name }
      else if point_type =? "patrol_point"
      then record r { patrol_points = remove_by_name r.patrol_points name }
      else if point_type =? "path_point"
      then record r { path_points = remove_by_name r.path_points name }
      else r

  unfoldable pub get_counts : Robot F → ℕ × ℕ × ℕ × ℕ × ℕ
  get_counts r = (
    length r.waypoints,
    length r.service_points,
    length r.patrol_points,
    length r.path_points,
    length r.wall_obstacles,
  )
