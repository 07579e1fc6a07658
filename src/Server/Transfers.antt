-- ===== src/Server/Transfers.antt =====
-- What the transfers of navigation points keep of the current robot.
use rom_go_app.Prelude.{ℕ, refl, Option, none, some, Float64, arith}
use rom_go_app.Rosbridge.Client.{Client, Network}
use rom_go_app.Rosbridge.Client.Services.{
  add_waypoints, add_service_points, add_patrol_points, add_path_points, get_waypoints,
  get_service_points, get_patrol_points, get_path_points, go_all_waypoints, go_all_service_points,
  go_all_patrol_points, go_all_path_points, save_wall_obstacles,
}
use rom_go_app.Robot.{Robot}
use rom_go_app.Navigation.{
  clear_waypoints, clear_service_points, clear_patrol_points, clear_path_points,
}
use rom_go_app.Navigation.Names.{
  Kind, waypoint, service_point, patrol_point, path_point, clear_points,
}
use rom_go_app.Navigation.Edits.{clear_points-WellNamed}
use rom_go_app.Navigation.Remote.{
  clear_wall_obstacles, send_wall_obstacles_to_robot, send_waypoints_to_robot,
  send_service_points_to_robot, send_patrol_points_to_robot, send_path_points_to_robot,
  go_waypoints, go_service_points, go_patrol_points, go_path_points, request_waypoints,
  request_service_points, request_patrol_points, request_path_points,
}
use rom_go_app.Manager.Updates.{KeepsIdentity}
use rom_go_app.Api.Points.{
  PointType, listed, wall, invalid_type, send_typed, go_typed, fetch_typed, clear_typed,
}
use rom_go_app.Server.Kept.{Follows, Listed-WellNamed, WellNamed-Listed, Kept}
use rom_go_app.Server.Robots.{unchanged-Kept, own-Kept, remote-Kept}
use rom_go_app.Rosbridge.Client.Lifecycle.Calls.{
  clear_wall_obstacles-Moves, add_waypoints-Moves, add_service_points-Moves,
  add_patrol_points-Moves, add_path_points-Moves, get_waypoints-Moves, get_service_points-Moves,
  get_patrol_points-Moves, get_path_points-Moves, go_all_waypoints-Moves,
  go_all_service_points-Moves, go_all_patrol_points-Moves, go_all_path_points-Moves,
  save_wall_obstacles-Moves,
}
use rom_go_app.Rosbridge.Client.Lifecycle.Moves.{rests, Moving}
use rom_go_app.Prelude.{◌≡◌, sym, subst, if_holds}
use rom_go_app.Rosbridge.Client.{is_connected}
use rom_go_app.Navigation.Remote.{RemoteError}

module _ {F : Type 0} (fl : Float64 F) (net : Network F) (now : ℕ)
    (meanwhile : Client F → Client F) where
  pub send_typed-Kept :
      (t : PointType) → Kept fl meanwhile (λ r. (send_typed net now meanwhile t r).0)
  unfolding send_typed send_waypoints_to_robot send_service_points_to_robot
      send_patrol_points_to_robot send_path_points_to_robot send_wall_obstacles_to_robot
  send_typed-Kept (listed waypoint) =
      remote-Kept fl meanwhile (λ r. add_waypoints net now meanwhile r.waypoints)
        (λ w r. add_waypoints-Moves fl net now meanwhile r.waypoints w)
  send_typed-Kept (listed service_point) =
      remote-Kept fl meanwhile (λ r. add_service_points net now meanwhile r.service_points)
        (λ w r. add_service_points-Moves fl net now meanwhile r.service_points w)
  send_typed-Kept (listed patrol_point) =
      remote-Kept fl meanwhile (λ r. add_patrol_points net now meanwhile r.patrol_points)
        (λ w r. add_patrol_points-Moves fl net now meanwhile r.patrol_points w)
  send_typed-Kept (listed path_point) =
      remote-Kept fl meanwhile (λ r. add_path_points net now meanwhile r.path_points)
        (λ w r. add_path_points-Moves fl net now meanwhile r.path_points w)
  send_typed-Kept wall =
      remote-Kept fl meanwhile (λ r. save_wall_obstacles net now meanwhile r.wall_obstacles)
        (λ w r. save_wall_obstacles-Moves fl net now meanwhile r.wall_obstacles w)
  send_typed-Kept invalid_type = unchanged-Kept fl meanwhile

  pub go_typed-Kept : (t : PointType) → Kept fl meanwhile (λ r. (go_typed net now meanwhile t r).0)
  unfolding go_typed go_waypoints go_service_points go_patrol_points go_path_points
  go_typed-Kept (listed waypoint) =
      remote-Kept fl meanwhile (λ _. go_all_waypoints net now meanwhile)
        (λ w r. go_all_waypoints-Moves fl net now meanwhile w)
  go_typed-Kept (listed service_point) =
      remote-Kept fl meanwhile (λ _. go_all_service_points net now meanwhile)
        (λ w r. go_all_service_points-Moves fl net now meanwhile w)
  go_typed-Kept (listed patrol_point) =
      remote-Kept fl meanwhile (λ _. go_all_patrol_points net now meanwhile)
        (λ w r. go_all_patrol_points-Moves fl net now meanwhile w)
  go_typed-Kept (listed path_point) =
      remote-Kept fl meanwhile (λ _. go_all_path_points net now meanwhile)
        (λ w r. go_all_path_points-Moves fl net now meanwhile w)
  go_typed-Kept wall = unchanged-Kept fl meanwhile
  go_typed-Kept invalid_type = unchanged-Kept fl meanwhile

  pub fetch_typed-Kept :
      (t : PointType) → Kept fl meanwhile (λ r. (fetch_typed net now meanwhile t r).0)
  unfolding fetch_typed request_waypoints request_service_points request_patrol_points
      request_path_points
  fetch_typed-Kept (listed waypoint) =
      remote-Kept fl meanwhile (λ _. get_waypoints net now meanwhile)
        (λ w r. get_waypoints-Moves fl net now meanwhile w)
  fetch_typed-Kept (listed service_point) =
      remote-Kept fl meanwhile (λ _. get_service_points net now meanwhile)
        (λ w r. get_service_points-Moves fl net now meanwhile w)
  fetch_typed-Kept (listed patrol_point) =
      remote-Kept fl meanwhile (λ _. get_patrol_points net now meanwhile)
        (λ w r. get_patrol_points-Moves fl net now meanwhile w)
  fetch_typed-Kept (listed path_point) =
      remote-Kept fl meanwhile (λ _. get_path_points net now meanwhile)
        (λ w r. get_path_points-Moves fl net now meanwhile w)
  fetch_typed-Kept wall = unchanged-Kept fl meanwhile
  fetch_typed-Kept invalid_type = unchanged-Kept fl meanwhile

  clear_points-KeepsIdentity : (k : Kind) → KeepsIdentity (clear_points {F = F} k)
  unfolding clear_waypoints clear_service_points clear_patrol_points clear_path_points
  clear_points-KeepsIdentity waypoint r = (refl, refl, refl)
  clear_points-KeepsIdentity service_point r = (refl, refl, refl)
  clear_points-KeepsIdentity patrol_point r = (refl, refl, refl)
  clear_points-KeepsIdentity path_point r = (refl, refl, refl)

  clear_wall_obstacles-Follows :
      (c : Option (Client F)) (r : Robot F)
      → r.client ≡ c
      → Moving fl meanwhile
      → Follows fl c (clear_wall_obstacles net now meanwhile r).0.client
  unfolding clear_wall_obstacles
  clear_wall_obstacles-Follows none r e w =
      rw (e, clear_wall_obstacles) (subst (Follows fl none) (sym e) tt)
  clear_wall_obstacles-Follows (some c) r e w =
      rw (e, clear_wall_obstacles)
        (if_holds (λ (o : Robot F × Option RemoteError). Follows fl (some c) o.0.client)
          (is_connected c) (clear_wall_obstacles-Moves fl net now meanwhile w c)
          (subst (Follows fl (some c)) (sym e) rests))

  clear_points-client : (k : Kind) (r : Robot F) → (clear_points k r).client ≡ r.client
  unfolding clear_waypoints clear_service_points clear_patrol_points clear_path_points
  clear_points-client waypoint r = refl
  clear_points-client service_point r = refl
  clear_points-client patrol_point r = refl
  clear_points-client path_point r = refl

  clear_wall_obstacles-Kept : Kept fl meanwhile (λ r. (clear_wall_obstacles net now meanwhile r).0)
  unfolding clear_wall_obstacles
  clear_wall_obstacles-Kept = (
    λ r. (ground arith, ground arith, ground arith),
    λ r v. ground arith,
    λ w r. clear_wall_obstacles-Follows r.client r refl w,
  )

  pub clear_typed-Kept :
      (t : PointType) → Kept fl meanwhile (λ r. (clear_typed net now meanwhile t r).0)
  unfolding clear_typed
  clear_typed-Kept (listed k) =
      own-Kept fl meanwhile (clear_points k) (clear_points-KeepsIdentity k)
        (λ r v. WellNamed-Listed _ (clear_points-WellNamed k r (Listed-WellNamed r v)))
        (clear_points-client k)
  clear_typed-Kept wall = clear_wall_obstacles-Kept
  clear_typed-Kept invalid_type = unchanged-Kept fl meanwhile
