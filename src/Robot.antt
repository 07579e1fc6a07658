-- ===== src/Robot.antt =====
-- robot/robot.go: the state of one robot. `Client` is a pointer that only a snapshot leaves nil; a
-- time is in nanoseconds, `none` being the zero time. The robot layer's own fields are written under
-- its lock, one method at a time.
pub mod Sensors
pub mod History
use rom_go_app.Prelude.{
  ℕ, suc, ◌-◌, ◌/◌, String, Bool, true, false, Option, none, some, List, [], ◌∷◌, ◌++◌, Float64,
  if◌then◌else◌, ltb, ◌=?◌, length, drop,
}
use rom_go_app.Rosbridge.Types.{
  TwistData, MapData, OdomData, TfData, LaserData, Pose2D, NavigationPoint, WallObstacle, zero_map,
  zero_odom, zero_tf, zero_laser, zero_pose, zero_twist,
}
use rom_go_app.Rosbridge.Client.{Client, Network, new_client, disconnect}
use rom_go_app.Rosbridge.Client.Topics.{unsubscribe_all, subscribe_all_topics}
use rom_go_app.Rosbridge.Client.CmdVel.{set_desired_cmd_vel, set_cmd_vel_enabled}
use rom_go_app.Rosbridge.Client.Parsers.{
  Callback, on_map, on_twist, on_tf, on_odom, on_ctrl_odom, on_laser, on_map_bfp,
}

pub record Robot (F : Type 0) : Type 0 where
  pub id : String
  pub namespace : String
  pub name : String
  pub ip : String
  pub port : ℕ
  pub radius : F
  pub connected : Bool
  pub client : Option (Client F)
  pub map : MapData F
  pub map_received : Bool
  pub odom : OdomData F
  pub controller_odom : OdomData F
  pub tf : TfData F
  pub tf_received : Bool
  pub laser : LaserData F
  pub map_bfp : Pose2D F
  pub velocity : TwistData F
  pub velocity_history : List (TwistData F)
  pub max_history : ℕ
  pub waypoints : List (NavigationPoint F)
  pub service_points : List (NavigationPoint F)
  pub patrol_points : List (NavigationPoint F)
  pub path_points : List (NavigationPoint F)
  pub wall_obstacles : List (WallObstacle F)
  pub map_list : List String
  pub linear_vel_ratio : F
  pub angular_vel_ratio : F
  pub last_map_time : Option ℕ
  pub map_hz : ℕ
  pub last_tf_time : Option ℕ
  pub tf_hz : ℕ
  pub last_odom_time : Option ℕ
  pub odom_hz : ℕ
  pub last_laser_time : Option ℕ
  pub laser_hz : ℕ

-- `time.Second` in nanoseconds.
abbrev pub second : ℕ
second = 1000000000

-- `measureHz`: the new `*last`, and the rate. A clock that stands still or goes back gives 0.
unfoldable pub measure_hz : ℕ → Option ℕ → Option ℕ × ℕ
measure_hz now none = (some now, 0)
measure_hz now (some last) =
    let elapsed = now - last in (some now, if ltb 0 elapsed then second / elapsed else 0)

module _ {F : Type 0} (fl : Float64 F) where
  open fl use {default_radius, one_float, zero_float, mul}

  -- `NewRobot` wires all the callbacks of the client before it hands out the robot.
  unfoldable pub new_robot : String → String → String → String → ℕ → Robot F
  new_robot id ns name ip port = record {
    id = id;
    namespace = ns;
    name = name;
    ip = ip;
    port = port;
    radius = default_radius;
    connected = false;
    client = some (record (new_client fl ns ip port) { wired = true });
    map = zero_map fl;
    map_received = false;
    odom = zero_odom fl;
    controller_odom = zero_odom fl;
    tf = zero_tf fl;
    tf_received = false;
    laser = zero_laser fl;
    map_bfp = zero_pose fl;
    velocity = zero_twist fl;
    velocity_history = [];
    max_history = 100;
    waypoints = [];
    service_points = [];
    patrol_points = [];
    path_points = [];
    wall_obstacles = [];
    map_list = [];
    linear_vel_ratio = one_float;
    angular_vel_ratio = one_float;
    last_map_time = none;
    map_hz = 0;
    last_tf_time = none;
    tf_hz = 0;
    last_odom_time = none;
    odom_hz = 0;
    last_laser_time = none;
    laser_hz = 0;
  }

  -- `GetSnapshot`: the fields that the literal of the source leaves out are zero values.
  unfoldable pub get_snapshot : Robot F → Robot F
  get_snapshot r = record r {
    client = none;
    map = zero_map fl;
    laser = zero_laser fl;
    velocity_history = [];
    max_history = 0;
    last_map_time = none;
    last_tf_time = none;
    last_odom_time = none;
    last_laser_time = none;
  }

  -- `SetVelocity`, through the ratios of the robot.
  unfoldable pub set_velocity : F → F → Robot F → Robot F
  set_velocity linear_x angular_z r = record r {
    client = elim r.client [
      | none ↦ none
      | some c ↦ some (
          set_desired_cmd_vel c (record (zero_twist fl) {
            linear_x = mul linear_x r.linear_vel_ratio;
            angular_z = mul angular_z r.angular_vel_ratio;
          }))
    ];
  }

module _ {F : Type 0} where
  -- The callback `OnTwist`: the history keeps the newest samples.
  unfoldable pub on_twist_callback : TwistData F → Robot F → Robot F
  on_twist_callback t r =
      let longer = r.velocity_history ++ t ∷ [] in
      record r {
        velocity = t;
        velocity_history = if ltb r.max_history (length longer) then drop 1 longer else longer;
      }

  -- The callbacks that `NewRobot` installs, at the time `now`.
  unfoldable pub on_callback : ℕ → Callback F → Robot F → Robot F
  on_callback now (on_map m) r =
      let (last, hz) = measure_hz now r.last_map_time in
      record r { map = m; map_received = true; map_hz = hz; last_map_time = last }
  on_callback now (on_twist t) r = on_twist_callback t r
  on_callback now (on_tf tf) r =
      let (last, hz) = measure_hz now r.last_tf_time in
      record r { tf = tf; tf_received = true; tf_hz = hz; last_tf_time = last }
  on_callback now (on_odom o) r =
      let (last, hz) = measure_hz now r.last_odom_time in
      record r { odom = o; odom_hz = hz; last_odom_time = last }
  on_callback now (on_ctrl_odom o) r = record r { controller_odom = o }
  on_callback now (on_laser l) r =
      let (last, hz) = measure_hz now r.last_laser_time in
      record r { laser = l; laser_hz = hz; last_laser_time = last }
  on_callback now (on_map_bfp p) r = record r { map_bfp = p }

  -- A method of the client that changes the client alone.
  abbrev pub with_client : (Client F → Client F) → Robot F → Robot F
  with_client f r = record r { client = elim r.client [ none ↦ none | some c ↦ some (f c) ] }

  unfoldable pub on_connected : Network F → Robot F → Robot F
  on_connected net r =
      with_client (λ c. set_cmd_vel_enabled (subscribe_all_topics net c) true)
        (record r { connected = true })

  unfoldable pub on_disconnected : Robot F → Robot F
  on_disconnected r = record r { connected = false }

  unfoldable pub stop_connection : Network F → Bool → Robot F → Robot F
  stop_connection net stop_taken r =
      with_client (λ c. disconnect stop_taken (unsubscribe_all net c)) r

  unfoldable pub get_map : Robot F → MapData F
  get_map r = r.map

  unfoldable pub get_velocity_history : Robot F → List (TwistData F)
  get_velocity_history r = r.velocity_history

  unfoldable pub get_map_list : Robot F → List String
  get_map_list r = r.map_list

  unfoldable pub set_radius : F → Robot F → Robot F
  set_radius radius r = record r { radius = radius }

  unfoldable pub set_map_list : List String → Robot F → Robot F
  set_map_list maps r = record r { map_list = maps }

  unfoldable pub import_points :
      String → List (NavigationPoint F) → List (WallObstacle F) → Robot F → Robot F
  import_points point_type points walls r =
      if point_type =? "waypoint"
      then record r { waypoints = points }
      else if point_type =? "service_point"
      then record r { service_points = points }
      else if point_type =? "patrol_point"
      then record r { patrol_points = points }
      else if point_type =? "path_point"
      then record r { path_points = points }
      else if point_type =? "wall"
      then record r { wall_obstacles = walls }
      else r
