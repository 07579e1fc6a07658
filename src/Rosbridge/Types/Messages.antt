-- ===== src/Rosbridge/Types/Messages.antt =====
-- rosbridge/types.go: the messages of ROS and the flat records that the browser gets, over any
-- type `F` for `float64`. An `int` is its 64-bit pattern, an `int8` its 8-bit pattern. `MapInfo` and
-- `OccupancyGrid`, which no code uses, are left out, and `TFMessage` is its list of transforms.
use rom_go_app.Prelude.{ℕ, String, List, Float64, if◌then◌else◌, ◌==◌}

pub record Vector3 (F : Type 0) : Type 0 where
  pub x : F
  pub y : F
  pub z : F

pub record Quaternion (F : Type 0) : Type 0 where
  pub x : F
  pub y : F
  pub z : F
  pub w : F

pub record Pose (F : Type 0) : Type 0 where
  pub position : Vector3 F
  pub orientation : Quaternion F

pub record Twist (F : Type 0) : Type 0 where
  pub linear : Vector3 F
  pub angular : Vector3 F

pub record Stamp : Type 0 where
  pub sec : ℕ
  pub nanosec : ℕ
  pub nsec : ℕ

unfoldable pub nanosec_value : Stamp → ℕ
nanosec_value s = if s.nanosec == 0 then s.nsec else s.nanosec

pub record Header : Type 0 where
  pub stamp : Stamp
  pub frame_id : String

pub record TwistData (F : Type 0) : Type 0 where
  pub linear_x : F
  pub linear_y : F
  pub linear_z : F
  pub angular_x : F
  pub angular_y : F
  pub angular_z : F

pub record MapData (F : Type 0) : Type 0 where
  pub width : ℕ
  pub height : ℕ
  pub resolution : F
  pub origin_x : F
  pub origin_y : F
  pub cells : List ℕ

pub record PoseWithCovariance (F : Type 0) : Type 0 where
  pub pose : Pose F
  pub covariance : List F

pub record TwistWithCovariance (F : Type 0) : Type 0 where
  pub twist : Twist F
  pub covariance : List F

pub record Odometry (F : Type 0) : Type 0 where
  pub header : Header
  pub child_frame_id : String
  pub pose : PoseWithCovariance F
  pub twist : TwistWithCovariance F

pub record OdomData (F : Type 0) : Type 0 where
  pub frame_id : String
  pub child_frame_id : String
  pub pos_x : F
  pub pos_y : F
  pub pos_z : F
  pub orient_x : F
  pub orient_y : F
  pub orient_z : F
  pub orient_w : F
  pub yaw : F
  pub linear_x : F
  pub linear_y : F
  pub angular_z : F

-- The `Transform` of a `TransformStamped`.
pub record Transform (F : Type 0) : Type 0 where
  pub translation : Vector3 F
  pub rotation : Quaternion F

pub record TransformStamped (F : Type 0) : Type 0 where
  pub header : Header
  pub child_frame_id : String
  pub transform : Transform F

pub record TfData (F : Type 0) : Type 0 where
  pub map_odom_tx : F
  pub map_odom_ty : F
  pub map_odom_tz : F
  pub map_odom_rx : F
  pub map_odom_ry : F
  pub map_odom_rz : F
  pub map_odom_rw : F
  pub bfp_tx : F
  pub bfp_ty : F
  pub bfp_tz : F
  pub bfp_rx : F
  pub bfp_ry : F
  pub bfp_rz : F
  pub bfp_rw : F
  pub bfp_yaw : F

pub record LaserScan (F : Type 0) : Type 0 where
  pub header : Header
  pub angle_min : F
  pub angle_max : F
  pub angle_increment : F
  pub range_min : F
  pub range_max : F
  pub ranges : List F
  pub intensities : List F

pub record LaserData (F : Type 0) : Type 0 where
  pub frame_id : String
  pub angle_min : F
  pub angle_max : F
  pub angle_increment : F
  pub range_min : F
  pub range_max : F
  pub ranges : List F

pub record Pose2D (F : Type 0) : Type 0 where
  pub x : F
  pub y : F
  pub theta : F

pub record NavigationPoint (F : Type 0) : Type 0 where
  pub name : String
  pub image_x_px : F
  pub image_y_px : F
  pub image_theta_deg : F
  pub world_x_m : F
  pub world_y_m : F
  pub world_theta_rad : F

pub record WallObstacle (F : Type 0) : Type 0 where
  pub image_x_px_start : F
  pub image_y_px_start : F
  pub image_x_px_end : F
  pub image_y_px_end : F
  pub world_x_m_start : F
  pub world_y_m_start : F
  pub world_x_m_end : F
  pub world_y_m_end : F

pub record WhichMapsResponse : Type 0 where
  pub total_maps : ℕ
  pub map_names : List String

pub record HandshakeResponse (F : Type 0) : Type 0 where
  pub robot_namespace : String
  pub status : ℕ
  pub robot_diameter : F

pub record WhichTaskResponse : Type 0 where
  pub task_name : String
  pub status : ℕ
  pub response_settings : String

module _ {F : Type 0} (fl : Float64 F) where
  open fl use {zero_float, one_float, two_float, add, sub, mul, atan2}

  -- `Quaternion.Yaw`.
  unfoldable pub yaw : Quaternion F → F
  yaw q =
      let siny = mul two_float (add (mul q.w q.z) (mul q.x q.y)) in
      let cosy = sub one_float (mul two_float (add (mul q.y q.y) (mul q.z q.z))) in atan2 siny cosy

  unfoldable pub odom_from_msg : Odometry F → OdomData F
  odom_from_msg o = record {
    frame_id = o.header.frame_id;
    child_frame_id = o.child_frame_id;
    pos_x = o.pose.pose.position.x;
    pos_y = o.pose.pose.position.y;
    pos_z = o.pose.pose.position.z;
    orient_x = o.pose.pose.orientation.x;
    orient_y = o.pose.pose.orientation.y;
    orient_z = o.pose.pose.orientation.z;
    orient_w = o.pose.pose.orientation.w;
    yaw = yaw o.pose.pose.orientation;
    linear_x = o.twist.twist.linear.x;
    linear_y = o.twist.twist.linear.y;
    angular_z = o.twist.twist.angular.z;
  }
