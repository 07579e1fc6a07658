-- ===== src/Examples/Points.antt =====
-- Edits of a robot's navigation points.
use rom_go_app.Prelude.{ℕ, ◌≡◌, refl, none}
use rom_go_app.Robot.{Robot, new_robot}
use rom_go_app.Navigation.{has_name, existing, validate_and_create, add_patrol_point, delete_point}
use rom_go_app.Navigation.Names.{
  waypoint, service_point, patrol_point, path_point, api_name, WellNamed, add_point,
}
use rom_go_app.Navigation.Edits.{delete-add_point}
use rom_go_app.Examples.{fl}

abbrev robot : Robot ℕ
robot = new_robot fl "1" "/r1" "one" "10.0.0.1" 9090

robot-WellNamed : WellNamed robot
unfolding new_robot
robot-WellNamed waypoint = tt
robot-WellNamed service_point = tt
robot-WellNamed patrol_point = tt
robot-WellNamed path_point = tt

gate_added : (add_point fl patrol_point "gate" 1 2 3 robot).1 ≡ none
unfolding add_patrol_point validate_and_create existing has_name new_robot
gate_added = refl

delete-add_point_example :
    delete_point (api_name patrol_point) "gate" (add_point fl patrol_point "gate" 1 2 3 robot).0
    ≡ robot
delete-add_point_example = delete-add_point fl patrol_point "gate" 1 2 3 robot gate_added
