-- ===== src/Rosbridge/Client/Lifecycle/Calls.antt =====
-- The calls that the handlers make: each of them only moves the client.
use rom_go_app.Prelude.{ℕ, String, List, Float64}
use rom_go_app.Rosbridge.Types.{NavigationPoint, WallObstacle}
use rom_go_app.Rosbridge.Codec.{Codec}
use rom_go_app.Rosbridge.Client.{Client, Network, Result, Dialer, connect}
use rom_go_app.Rosbridge.Client.Services.{
  request_navigation_mode, request_mapping_mode, request_remapping_mode, save_map, select_map,
  send_nav_points, add_waypoints, add_service_points, add_patrol_points, add_path_points,
  save_wall_obstacles, clear_wall_obstacles, get_waypoints, get_service_points, get_patrol_points,
  get_path_points, go_all_waypoints, go_all_service_points, go_all_patrol_points,
  go_all_path_points,
}
use rom_go_app.Rosbridge.Client.Replies.{
  handshake, request_which_maps, request_which_maps_names, request_task, request_settings_save,
  request_power_off, request_reboot, send_voice_command,
}
use rom_go_app.Rosbridge.Client.Lifecycle.Steps.{connects, step}
use rom_go_app.Rosbridge.Client.Lifecycle.Moves.{Moves, rests, turns, Moving, call_service-Moves}

module _ {F : Type 0} (fl : Float64 F) (meanwhile : Client F → Client F) where
  -- A call during whose wait the other goroutines move the client moves it too.
  abbrev pub Called : {A : Type 0} → (Client F → Client F × Result A) → Type 0
  Called call = Moving fl meanwhile → Moving fl (λ c. (call c).0)

module _ {F : Type 0} (fl : Float64 F) (net : Network F) (now : ℕ)
    (meanwhile : Client F → Client F) where
  pub request_navigation_mode-Moves :
      Called fl meanwhile (request_navigation_mode net now meanwhile)
  unfolding request_navigation_mode
  request_navigation_mode-Moves w = call_service-Moves fl net now meanwhile _ _ w

  pub request_mapping_mode-Moves : Called fl meanwhile (request_mapping_mode net now meanwhile)
  unfolding request_mapping_mode
  request_mapping_mode-Moves w = call_service-Moves fl net now meanwhile _ _ w

  pub request_remapping_mode-Moves : Called fl meanwhile (request_remapping_mode net now meanwhile)
  unfolding request_remapping_mode
  request_remapping_mode-Moves w = call_service-Moves fl net now meanwhile _ _ w

  pub save_map-Moves : (name : String) → Called fl meanwhile (save_map net now meanwhile name)
  unfolding save_map
  save_map-Moves name w = call_service-Moves fl net now meanwhile _ _ w

  pub select_map-Moves : (name : String) → Called fl meanwhile (select_map net now meanwhile name)
  unfolding select_map
  select_map-Moves name w = call_service-Moves fl net now meanwhile _ _ w

  pub add_waypoints-Moves :
      (pts : List (NavigationPoint F)) → Called fl meanwhile (add_waypoints net now meanwhile pts)
  unfolding add_waypoints send_nav_points
  add_waypoints-Moves pts w = call_service-Moves fl net now meanwhile _ _ w

  pub add_service_points-Moves :
      (pts : List (NavigationPoint F))
      → Called fl meanwhile (add_service_points net now meanwhile pts)
  unfolding add_service_points send_nav_points
  add_service_points-Moves pts w = call_service-Moves fl net now meanwhile _ _ w

  pub add_patrol_points-Moves :
      (pts : List (NavigationPoint F))
      → Called fl meanwhile (add_patrol_points net now meanwhile pts)
  unfolding add_patrol_points send_nav_points
  add_patrol_points-Moves pts w = call_service-Moves fl net now meanwhile _ _ w

  pub add_path_points-Moves :
      (pts : List (NavigationPoint F)) → Called fl meanwhile (add_path_points net now meanwhile pts)
  unfolding add_path_points send_nav_points
  add_path_points-Moves pts w = call_service-Moves fl net now meanwhile _ _ w

  pub save_wall_obstacles-Moves :
      (walls : List (WallObstacle F))
      → Called fl meanwhile (save_wall_obstacles net now meanwhile walls)
  unfolding save_wall_obstacles send_nav_points
  save_wall_obstacles-Moves walls w = call_service-Moves fl net now meanwhile _ _ w

  pub clear_wall_obstacles-Moves : Called fl meanwhile (clear_wall_obstacles net now meanwhile)
  unfolding clear_wall_obstacles
  clear_wall_obstacles-Moves w = call_service-Moves fl net now meanwhile _ _ w

  pub get_waypoints-Moves : Called fl meanwhile (get_waypoints net now meanwhile)
  unfolding get_waypoints
  get_waypoints-Moves w = call_service-Moves fl net now meanwhile _ _ w

  pub get_service_points-Moves : Called fl meanwhile (get_service_points net now meanwhile)
  unfolding get_service_points
  get_service_points-Moves w = call_service-Moves fl net now meanwhile _ _ w

  pub get_patrol_points-Moves : Called fl meanwhile (get_patrol_points net now meanwhile)
  unfolding get_patrol_points
  get_patrol_points-Moves w = call_service-Moves fl net now meanwhile _ _ w

  pub get_path_points-Moves : Called fl meanwhile (get_path_points net now meanwhile)
  unfolding get_path_points
  get_path_points-Moves w = call_service-Moves fl net now meanwhile _ _ w

  pub go_all_waypoints-Moves : Called fl meanwhile (go_all_waypoints net now meanwhile)
  unfolding go_all_waypoints
  go_all_waypoints-Moves w = call_service-Moves fl net now meanwhile _ _ w

  pub go_all_service_points-Moves : Called fl meanwhile (go_all_service_points net now meanwhile)
  unfolding go_all_service_points
  go_all_service_points-Moves w = call_service-Moves fl net now meanwhile _ _ w

  pub go_all_patrol_points-Moves : Called fl meanwhile (go_all_patrol_points net now meanwhile)
  unfolding go_all_patrol_points
  go_all_patrol_points-Moves w = call_service-Moves fl net now meanwhile _ _ w

  pub go_all_path_points-Moves : Called fl meanwhile (go_all_path_points net now meanwhile)
  unfolding go_all_path_points
  go_all_path_points-Moves w = call_service-Moves fl net now meanwhile _ _ w

module _ {F : Type 0} (fl : Float64 F) (codec : Codec F) (net : Network F) (now : ℕ)
    (meanwhile : Client F → Client F) where
  pub handshake-Moves : Called fl meanwhile (handshake codec net now meanwhile)
  unfolding handshake
  handshake-Moves w = call_service-Moves fl net now meanwhile _ _ w

  pub request_which_maps_names-Moves :
      Called fl meanwhile (request_which_maps_names codec net now meanwhile)
  unfolding request_which_maps_names request_which_maps
  request_which_maps_names-Moves w = call_service-Moves fl net now meanwhile _ _ w

  pub request_task-Moves :
      (task_name settings : String)
      → Called fl meanwhile (request_task codec net now meanwhile task_name settings)
  unfolding request_task
  request_task-Moves task_name settings w = call_service-Moves fl net now meanwhile _ _ w

  pub request_settings_save-Moves :
      (yaml : String) → Called fl meanwhile (request_settings_save codec net now meanwhile yaml)
  unfolding request_settings_save request_task
  request_settings_save-Moves yaml w = call_service-Moves fl net now meanwhile _ _ w

  pub request_power_off-Moves : Called fl meanwhile (request_power_off codec net now meanwhile)
  unfolding request_power_off request_task
  request_power_off-Moves w = call_service-Moves fl net now meanwhile _ _ w

  pub request_reboot-Moves : Called fl meanwhile (request_reboot codec net now meanwhile)
  unfolding request_reboot request_task
  request_reboot-Moves w = call_service-Moves fl net now meanwhile _ _ w

  pub send_voice_command-Moves :
      (cmd : String) → Called fl meanwhile (send_voice_command codec net now meanwhile cmd)
  unfolding send_voice_command request_task
  send_voice_command-Moves cmd w = call_service-Moves fl net now meanwhile _ _ w

  pub connect-Moves : (dial : Dialer) (c : Client F) → Moves fl c (connect dial c).0
  unfolding step
  connect-Moves dial c = turns codec net (connects dial) rests
