-- ===== src/Manager.antt =====
-- robot/manager.go: the registry of robots. A robot that is removed stays in memory, as goroutines
-- still hold it: `removed` keeps it. The methods run under the registry's lock.
pub mod Steps
pub mod Invariant
pub mod Updates
pub mod Registry
pub mod History
pub mod Evolution
pub mod Hearing
pub mod Keys
pub mod Directory
pub mod Refinement
use rom_go_app.Prelude.{
  ℕ, zero, suc, ◌+◌, ◌%◌, String, Bool, true, false, ◌&&◌, Option, none, some, List, [], ◌∷◌, ◌++◌,
  map, Float64, if◌then◌else◌, ◌=?◌, ◌==◌, get, put, delete, length, sprint_int, int_mod,
}
use rom_go_app.Rosbridge.Types.{MapData, TfData, OdomData, LaserData, TwistData, Pose2D}
use rom_go_app.Rosbridge.Client.{Network}
use rom_go_app.Rosbridge.Client.Parsers.{
  Callback, on_map, on_twist, on_tf, on_odom, on_ctrl_odom, on_laser, on_map_bfp,
}
use rom_go_app.Robot.{
  Robot, new_robot, get_snapshot, stop_connection, on_callback, on_connected, on_disconnected,
}
use rom_go_app.Hub.{Hub, empty_hub, broadcast}

-- The field `Data` of a message.
pub data Payload (F : Type 0) : Type 0 where
  no_data : Payload F
  map_data : MapData F → Payload F
  tf_data : TfData F → Payload F
  odom_data : OdomData F → Payload F
  laser_data : LaserData F → Payload F
  twist_data : TwistData F → Payload F
  pose_data : Pose2D F → Payload F
  robot_data : Robot F → Payload F

pub record BroadcastMsg (F : Type 0) : Type 0 where
  pub kind : String
  pub robot_id : String
  pub payload : Payload F

pub data ManagerError : Type 0 where
  already_exists : String → ℕ → ManagerError
  not_found : String → ManagerError

pub record Manager (F : Type 0) : Type 0 where
  pub robots : List (String × Robot F)
  pub current_id : String
  pub next_id : ℕ
  pub hub : Hub (BroadcastMsg F)
  pub removed : List (Robot F)

module _ {F : Type 0} where
  unfoldable pub new_manager : Manager F
  new_manager = record { robots = []; current_id = ""; next_id = 1; hub = empty_hub; removed = [] }

  -- The loop "check duplicate IP".
  unfoldable pub has_address : String → ℕ → List (String × Robot F) → Bool
  has_address ip port [] = false
  has_address ip port ((k, r) ∷ m) =
      if (r.ip =? ip) && (r.port == port) then true else has_address ip port m

  -- The key that a `range` over the map visits first; `choice` is what the runtime picks.
  unfoldable pub range_first : ℕ → List (String × Robot F) → String
  range_first choice [] = ""
  range_first zero ((k, r) ∷ m) = k
  range_first (suc n) ((k, r) ∷ []) = k
  range_first (suc n) ((k, r) ∷ e ∷ m) = range_first n (e ∷ m)

  abbrev pub announce : String → String → Payload F → Manager F → Manager F
  announce kind id payload m = record m {
    hub = broadcast (record { kind = kind; robot_id = id; payload = payload }) m.hub;
  }

  unfoldable pub add_robot :
      Float64 F
      → String
      → String
      → String
      → ℕ
      → Manager F
      → Manager F × (Option (Robot F) × Option ManagerError)
  add_robot fl ns name ip port m =
      if has_address ip port m.robots
      then (m, (none, some (already_exists ip port)))
      else (let id = sprint_int m.next_id in
          let r = new_robot fl id ns name ip port in
          (
            announce "robot_added" id (robot_data (get_snapshot fl r)) (record m {
              next_id = (m.next_id + 1) % int_mod;
              robots = put id r m.robots;
              current_id = if m.current_id =? "" then id else m.current_id;
            }),
            (some r, none),
          ))

  unfoldable pub remove_robot :
      Network F → Bool → ℕ → String → Manager F → Manager F × Option ManagerError
  remove_robot net stop_taken choice id m = elim (get id m.robots) [
    | none ↦ (m, some (not_found id))
    | some r ↦
        let rest = delete id m.robots in
        (
          announce "robot_removed" id no_data (record m {
            robots = rest;
            removed = m.removed ++ stop_connection net stop_taken r ∷ [];
            current_id = if m.current_id =? id then range_first choice rest else m.current_id;
          }),
          none,
        )
  ]

  unfoldable pub switch_robot : String → Manager F → Manager F × Option ManagerError
  switch_robot id m = elim (get id m.robots) [
    | none ↦ (m, some (not_found id))
    | some _ ↦ (announce "robot_switched" id no_data (record m { current_id = id }), none)
  ]

  unfoldable pub get_robot : String → Manager F → Option (Robot F)
  get_robot id m = get id m.robots

  unfoldable pub get_current_robot : Manager F → Option (Robot F)
  get_current_robot m = if m.current_id =? "" then none else get m.current_id m.robots

  unfoldable pub get_current_robot_id : Manager F → String
  get_current_robot_id m = m.current_id

  unfoldable pub get_all_robots : Manager F → List (Robot F)
  get_all_robots m = map (λ e. e.1) m.robots

  unfoldable pub get_robot_count : Manager F → ℕ
  get_robot_count m = length m.robots

  unfoldable pub clear_all : Network F → (String → Bool) → Manager F → Manager F
  clear_all net stop_taken m = record m {
    robots = [];
    current_id = "";
    removed = m.removed ++ map (λ e. stop_connection net (stop_taken e.0) e.1) m.robots;
  }

  -- What a handler does to the robot that it got from the registry.
  unfoldable pub update_robot : String → (Robot F → Robot F) → Manager F → Manager F
  update_robot id f m = elim (get id m.robots) [
    | none ↦ m
    | some r ↦ record m { robots = put id (f r) m.robots }
  ]

  -- The message that the manager's wrapper of a callback sends.
  unfoldable pub callback_msg : String → Callback F → BroadcastMsg F
  callback_msg id (on_map d) = record { kind = "map"; robot_id = id; payload = map_data d }
  callback_msg id (on_tf d) = record { kind = "tf"; robot_id = id; payload = tf_data d }
  callback_msg id (on_odom d) = record { kind = "odom"; robot_id = id; payload = odom_data d }
  callback_msg id (on_ctrl_odom d) = record {
    kind = "ctrl_odom";
    robot_id = id;
    payload = odom_data d;
  }
  callback_msg id (on_laser d) = record { kind = "laser"; robot_id = id; payload = laser_data d }
  callback_msg id (on_twist d) = record { kind = "velocity"; robot_id = id; payload = twist_data d }
  callback_msg id (on_map_bfp d) = record { kind = "map_bfp"; robot_id = id; payload = pose_data d }

  -- The wrapped callbacks: the robot's own first, then the broadcast.
  unfoldable pub deliver : ℕ → String → Callback F → Manager F → Manager F
  deliver now id callback m =
      let updated = update_robot id (on_callback now callback) m in
      record updated { hub = broadcast (callback_msg id callback) updated.hub }

  unfoldable pub robot_connected : Network F → String → Manager F → Manager F
  robot_connected net id m =
      announce "robot_connected" id no_data (update_robot id (on_connected net) m)

  unfoldable pub robot_disconnected : String → Manager F → Manager F
  robot_disconnected id m =
      announce "robot_disconnected" id no_data (update_robot id on_disconnected m)
