-- ===== src/Api/Points.antt =====
-- handlers/nav_api.go: the requests on navigation points, all on the current robot.
use rom_go_app.Prelude.{ℕ, String, Option, none, some, List, Float64, if◌then◌else◌, ◌=?◌}
use rom_go_app.Rosbridge.Types.{NavigationPoint, WallObstacle}
use rom_go_app.Rosbridge.Client.{Client, Network}
use rom_go_app.Robot.{Robot, get_snapshot, import_points}
use rom_go_app.Navigation.{NavError, add_wall_obstacle, delete_point, get_counts}
use rom_go_app.Navigation.Names.{
  Kind, waypoint, service_point, patrol_point, path_point, points, clear_points, add_point,
}
use rom_go_app.Navigation.Remote.{
  RemoteError, send_wall_obstacles_to_robot, clear_wall_obstacles, request_waypoints,
  request_service_points, request_patrol_points, request_path_points, go_waypoints,
  go_service_points, go_patrol_points, go_path_points,
}
use rom_go_app.Navigation.Remote.Sends.{send_points}
use rom_go_app.Manager.{Manager, get_current_robot}
use rom_go_app.Api.{Status, success, bad_request, internal_error}
use rom_go_app.Api.Current.{on_current}

-- The cases of the handlers' `switch pointType`.
pub data PointType : Type 0 where
  listed : Kind → PointType
  wall : PointType
  invalid_type : PointType

unfoldable pub point_type : String → PointType
point_type s =
    if s =? "waypoint"
    then listed waypoint
    else if s =? "service_point"
    then listed service_point
    else if s =? "patrol_point"
    then listed patrol_point
    else if s =? "path_point"
    then listed path_point
    else if s =? "wall"
    then wall
    else invalid_type

-- The form of `AddNavigationPoint`: the numbers as `strconv.ParseFloat` returns them, with its
-- errors dropped.
pub record PointForm (F : Type 0) : Type 0 where
  pub type_name : String
  pub name : String
  pub x : F
  pub y : F
  pub theta : F
  pub x2 : F
  pub y2 : F

-- The decoded body of `ImportNavPoints`.
pub record ImportPayload (F : Type 0) : Type 0 where
  pub type_name : String
  pub points : List (NavigationPoint F)
  pub walls : List (WallObstacle F)

-- The body of `ListNavigationPoints`.
pub data PointLists (F : Type 0) : Type 0 where
  nothing : PointLists F
  one_list : List (NavigationPoint F) → PointLists F
  wall_list : List (WallObstacle F) → PointLists F
  all_lists :
      List (NavigationPoint F)
      → List (NavigationPoint F)
      → List (NavigationPoint F)
      → List (NavigationPoint F)
      → List (WallObstacle F)
      → PointLists F

abbrev pub edit_status : Option NavError → Status
edit_status none = success
edit_status (some _) = bad_request

abbrev pub remote_status : Option RemoteError → Status
remote_status none = success
remote_status (some _) = internal_error

module _ {F : Type 0} where
  abbrev pub edited : Robot F × Option NavError → Robot F × Status
  edited (r, e) = (r, edit_status e)

  abbrev pub transferred : Robot F × Option RemoteError → Robot F × Status
  transferred (r, e) = (r, remote_status e)

  -- The guard `rb.Client == nil`.
  abbrev pub with_a_client :
      Option (Client F) → (Robot F → Robot F × Status) → Robot F → Robot F × Status
  with_a_client none f r = (r, bad_request)
  with_a_client (some _) f r = f r

  unfoldable pub list_points : PointType → Robot F → PointLists F
  list_points (listed k) r = one_list (points k r)
  list_points wall r = wall_list r.wall_obstacles
  list_points invalid_type r =
      all_lists r.waypoints r.service_points r.patrol_points r.path_points r.wall_obstacles

  unfoldable pub list_navigation_points : Float64 F → String → Manager F → PointLists F
  list_navigation_points fl type_name m = elim (get_current_robot m) [
    | none ↦ nothing
    | some r ↦ list_points (point_type type_name) (get_snapshot fl r)
  ]

  -- The data of the page of `NavPointsPartial`.
  unfoldable pub nav_points_partial :
      Float64 F → Manager F → Option ((ℕ × ℕ × ℕ × ℕ × ℕ) × PointLists F)
  nav_points_partial fl m = elim (get_current_robot m) [
    | none ↦ none
    | some r ↦ some (get_counts r, list_points invalid_type (get_snapshot fl r))
  ]

  unfoldable pub import_payload : Option (ImportPayload F) → Robot F → Robot F × Status
  import_payload none r = (r, bad_request)
  import_payload (some p) r = (import_points p.type_name p.points p.walls r, success)

  unfoldable pub import_nav_points : Option (ImportPayload F) → Manager F → Manager F × Status
  import_nav_points body = on_current (import_payload body)

  unfoldable pub delete_nav_point : String → String → Manager F → Manager F × Status
  delete_nav_point type_name name = on_current (λ r. (delete_point type_name name r, success))

module _ {F : Type 0} (fl : Float64 F) where
  unfoldable pub add_typed_point : PointType → PointForm F → Robot F → Robot F × Status
  add_typed_point (listed k) p r = edited (add_point fl k p.name p.x p.y p.theta r)
  add_typed_point wall p r = edited (add_wall_obstacle fl p.name p.x p.y p.x2 p.y2 r)
  add_typed_point invalid_type p r = (r, bad_request)

  unfoldable pub add_navigation_point : PointForm F → Manager F → Manager F × Status
  add_navigation_point p = on_current (add_typed_point (point_type p.type_name) p)

module _ {F : Type 0} (net : Network F) (now : ℕ) (meanwhile : Client F → Client F) where
  abbrev pub go_points : Kind → Robot F → Robot F × Option RemoteError
  go_points waypoint = go_waypoints net now meanwhile
  go_points service_point = go_service_points net now meanwhile
  go_points patrol_point = go_patrol_points net now meanwhile
  go_points path_point = go_path_points net now meanwhile

  abbrev pub fetch_points : Kind → Robot F → Robot F × Option RemoteError
  fetch_points waypoint = request_waypoints net now meanwhile
  fetch_points service_point = request_service_points net now meanwhile
  fetch_points patrol_point = request_patrol_points net now meanwhile
  fetch_points path_point = request_path_points net now meanwhile

  unfoldable pub send_typed : PointType → Robot F → Robot F × Status
  send_typed (listed k) r = transferred (send_points net now meanwhile k r)
  send_typed wall r = transferred (send_wall_obstacles_to_robot net now meanwhile r)
  send_typed invalid_type r = (r, bad_request)

  unfoldable pub go_typed : PointType → Robot F → Robot F × Status
  go_typed (listed k) r = transferred (go_points k r)
  go_typed wall r = (r, bad_request)
  go_typed invalid_type r = (r, bad_request)

  unfoldable pub fetch_typed : PointType → Robot F → Robot F × Status
  fetch_typed (listed k) r = transferred (fetch_points k r)
  fetch_typed wall r = (r, bad_request)
  fetch_typed invalid_type r = (r, bad_request)

  -- The error of `ClearWallObstacles` is dropped.
  unfoldable pub clear_typed : PointType → Robot F → Robot F × Status
  clear_typed (listed k) r = (clear_points k r, success)
  clear_typed wall r = ((clear_wall_obstacles net now meanwhile r).0, success)
  clear_typed invalid_type r = (r, bad_request)

  unfoldable pub send_navigation_points : String → Manager F → Manager F × Status
  send_navigation_points type_name =
      on_current (λ r. with_a_client r.client (send_typed (point_type type_name)) r)

  unfoldable pub go_all_points : String → Manager F → Manager F × Status
  go_all_points type_name =
      on_current (λ r. with_a_client r.client (go_typed (point_type type_name)) r)

  unfoldable pub request_nav_points_from_robot : String → Manager F → Manager F × Status
  request_nav_points_from_robot type_name =
      on_current (λ r. with_a_client r.client (fetch_typed (point_type type_name)) r)

  unfoldable pub clear_navigation_points : String → Manager F → Manager F × Status
  clear_navigation_points type_name = on_current (clear_typed (point_type type_name))
