-- ===== src/Navigation/Remote.antt =====
-- robot/navigation.go: the points as the robot itself has them, over the service calls of its client.
pub mod Readings
pub mod Sends
use rom_go_app.Prelude.{
  ℕ, String, Bool, true, false, Option, none, some, List, [], ◌∷◌, ◌++◌, if◌then◌else◌, ◌≡◌, refl,
  ◌+++◌, arith, Option-cases, inl, inr,
}
use rom_go_app.Rosbridge.Types.{NavigationPoint, WallObstacle}
use rom_go_app.Rosbridge.Codec.{Raw}
use rom_go_app.Rosbridge.Protocol.{
  Json, Items, text, array, object, field, end, call_service_msg, waypoint_to_json,
  wall_obstacles_to_json,
}
use rom_go_app.Rosbridge.Client.{Client, Network, Result, ok, err, Error, is_connected, is_some}
use rom_go_app.Rosbridge.Client.Services.{
  call_id, send_nav_points, add_waypoints, add_service_points, add_patrol_points, add_path_points,
  save_wall_obstacles, clear_wall_obstacles as clear_remote_walls, get_waypoints,
  get_service_points, get_patrol_points, get_path_points, go_all_waypoints, go_all_service_points,
  go_all_patrol_points, go_all_path_points,
}
use rom_go_app.Robot.{Robot}

pub data RemoteError : Type 0 where
  robot_not_connected : RemoteError
  call_failed : Error → RemoteError

abbrev pub failure : Result Raw → Option RemoteError
failure (ok _) = none
failure (err e) = some (call_failed e)

module _ {F : Type 0} where
  abbrev pub call_connected :
      (Client F → Client F × Result Raw) → Robot F → Client F → Robot F × Option RemoteError
  call_connected call r c =
      if is_connected c
      then (let (after, answer) = call c in (record r { client = some after }, failure answer))
      else (r, some robot_not_connected)

  -- The common body: the client must be there and connected.
  unfoldable pub remote :
      (Client F → Client F × Result Raw) → Robot F → Robot F × Option RemoteError
  remote call r = elim r.client [
    | none ↦ (r, some robot_not_connected)
    | some c ↦ call_connected call r c
  ]

module _ {F : Type 0} (net : Network F) (now : ℕ) (meanwhile : Client F → Client F) where
  unfoldable pub send_waypoints_to_robot : Robot F → Robot F × Option RemoteError
  unfolding remote
  send_waypoints_to_robot r = remote (add_waypoints net now meanwhile r.waypoints) r

  unfoldable pub send_service_points_to_robot : Robot F → Robot F × Option RemoteError
  unfolding remote
  send_service_points_to_robot r = remote (add_service_points net now meanwhile r.service_points) r

  unfoldable pub send_patrol_points_to_robot : Robot F → Robot F × Option RemoteError
  unfolding remote
  send_patrol_points_to_robot r = remote (add_patrol_points net now meanwhile r.patrol_points) r

  unfoldable pub send_path_points_to_robot : Robot F → Robot F × Option RemoteError
  unfolding remote
  send_path_points_to_robot r = remote (add_path_points net now meanwhile r.path_points) r

  unfoldable pub send_wall_obstacles_to_robot : Robot F → Robot F × Option RemoteError
  unfolding remote
  send_wall_obstacles_to_robot r = remote (save_wall_obstacles net now meanwhile r.wall_obstacles) r

  unfoldable pub request_waypoints : Robot F → Robot F × Option RemoteError
  unfolding remote
  request_waypoints = remote (get_waypoints net now meanwhile)

  unfoldable pub request_service_points : Robot F → Robot F × Option RemoteError
  unfolding remote
  request_service_points = remote (get_service_points net now meanwhile)

  unfoldable pub request_patrol_points : Robot F → Robot F × Option RemoteError
  unfolding remote
  request_patrol_points = remote (get_patrol_points net now meanwhile)

  unfoldable pub request_path_points : Robot F → Robot F × Option RemoteError
  unfolding remote
  request_path_points = remote (get_path_points net now meanwhile)

  unfoldable pub go_waypoints : Robot F → Robot F × Option RemoteError
  unfolding remote
  go_waypoints = remote (go_all_waypoints net now meanwhile)

  unfoldable pub go_service_points : Robot F → Robot F × Option RemoteError
  unfolding remote
  go_service_points = remote (go_all_service_points net now meanwhile)

  unfoldable pub go_patrol_points : Robot F → Robot F × Option RemoteError
  unfolding remote
  go_patrol_points = remote (go_all_patrol_points net now meanwhile)

  unfoldable pub go_path_points : Robot F → Robot F × Option RemoteError
  unfolding remote
  go_path_points = remote (go_all_path_points net now meanwhile)

  abbrev tell_cleared : Robot F → Client F → Robot F × Option RemoteError
  tell_cleared r c =
      if is_connected c
      then (let (after, answer) = clear_remote_walls net now meanwhile c in
          (record r { client = some after }, failure answer))
      else (r, none)

  -- The list is emptied first, whether the robot can be told or not.
  unfoldable pub clear_wall_obstacles : Robot F → Robot F × Option RemoteError
  clear_wall_obstacles r =
      let cleared = record r { wall_obstacles = [] } in
      elim r.client [ none ↦ (cleared, none) | some c ↦ tell_cleared cleared c ]
