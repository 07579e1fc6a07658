-- ===== src/Api/Lists.antt =====
-- handlers/robot_api.go: the requests that only read.
use rom_go_app.Prelude.{ℕ, String, Bool, Option, none, some, List, map, Float64, ◌=?◌}
use rom_go_app.Rosbridge.Types.{OdomData, TwistData}
use rom_go_app.Robot.{Robot, get_snapshot, get_velocity_history}
use rom_go_app.Manager.{Manager, get_robot, get_all_robots, get_current_robot, get_current_robot_id}
use rom_go_app.Api.{id_or_current}

-- An item of the answer of `ListRobots`.
pub record RobotRow : Type 0 where
  pub id : String
  pub namespace : String
  pub name : String
  pub ip : String
  pub port : ℕ
  pub connected : Bool
  pub current : Bool

-- The answer of `RobotStatus`.
pub record RobotReport (F : Type 0) : Type 0 where
  pub id : String
  pub name : String
  pub connected : Bool
  pub odom : OdomData F
  pub velocity : TwistData F
  pub map_hz : ℕ
  pub tf_hz : ℕ
  pub odom_hz : ℕ
  pub laser_hz : ℕ

module _ {F : Type 0} (fl : Float64 F) where
  unfoldable pub robot_row : String → Robot F → RobotRow
  robot_row current_id rb =
      let snap = get_snapshot fl rb in
      record {
        id = snap.id;
        namespace = snap.namespace;
        name = snap.name;
        ip = snap.ip;
        port = snap.port;
        connected = snap.connected;
        current = snap.id =? current_id;
      }

  unfoldable pub list_robots : Manager F → List RobotRow
  unfolding robot_row
  list_robots m = map (robot_row (get_current_robot_id m)) (get_all_robots m)

  unfoldable pub robot_report : Robot F → RobotReport F
  robot_report rb =
      let snap = get_snapshot fl rb in
      record {
        id = snap.id;
        name = snap.name;
        connected = snap.connected;
        odom = snap.odom;
        velocity = snap.velocity;
        map_hz = snap.map_hz;
        tf_hz = snap.tf_hz;
        odom_hz = snap.odom_hz;
        laser_hz = snap.laser_hz;
      }

  -- `none` is the answer "robot not found".
  unfoldable pub robot_status : String → Manager F → Option (RobotReport F)
  robot_status id m = elim (get_robot (id_or_current id m) m) [
    | none ↦ none
    | some rb ↦ some (robot_report rb)
  ]

  -- The snapshot that the panel shows, if there is a current robot.
  unfoldable pub settings_partial : Manager F → Option (Robot F)
  settings_partial m = elim (get_current_robot m) [
    | none ↦ none
    | some rb ↦ some (get_snapshot fl rb)
  ]

module _ {F : Type 0} where
  unfoldable pub velocity_history_request : String → Manager F → Option (List (TwistData F))
  velocity_history_request id m = elim (get_robot (id_or_current id m) m) [
    | none ↦ none
    | some rb ↦ some (get_velocity_history rb)
  ]
