-- ===== src/Rosbridge/Types/Zero.antt =====
-- rosbridge/types.go: Go's zero values of the records that a fresh variable holds.
use rom_go_app.Prelude.{[], Float64}
use rom_go_app.Rosbridge.Types.Messages.{
  Vector3, Quaternion, Transform, TransformStamped, TwistData, MapData, OdomData, TfData, LaserData,
  Pose2D,
}

module _ {F : Type 0} (fl : Float64 F) where
  open fl use {zero_float}

  abbrev pub zero_vector : Vector3 F
  zero_vector = record { x = zero_float; y = zero_float; z = zero_float }

  abbrev pub zero_quaternion : Quaternion F
  zero_quaternion = record { x = zero_float; y = zero_float; z = zero_float; w = zero_float }

  abbrev pub zero_transform : Transform F
  zero_transform = record { translation = zero_vector; rotation = zero_quaternion }

  abbrev pub zero_stamped : TransformStamped F
  zero_stamped = record {
    header = record { stamp = record { sec = 0; nanosec = 0; nsec = 0 }; frame_id = "" };
    child_frame_id = "";
    transform = zero_transform;
  }

  abbrev pub zero_twist : TwistData F
  zero_twist = record {
    linear_x = zero_float;
    linear_y = zero_float;
    linear_z = zero_float;
    angular_x = zero_float;
    angular_y = zero_float;
    angular_z = zero_float;
  }

  abbrev pub zero_map : MapData F
  zero_map = record {
    width = 0;
    height = 0;
    resolution = zero_float;
    origin_x = zero_float;
    origin_y = zero_float;
    cells = [];
  }

  abbrev pub zero_odom : OdomData F
  zero_odom = record {
    frame_id = "";
    child_frame_id = "";
    pos_x = zero_float;
    pos_y = zero_float;
    pos_z = zero_float;
    orient_x = zero_float;
    orient_y = zero_float;
    orient_z = zero_float;
    orient_w = zero_float;
    yaw = zero_float;
    linear_x = zero_float;
    linear_y = zero_float;
    angular_z = zero_float;
  }

  abbrev pub zero_tf : TfData F
  zero_tf = record {
    map_odom_tx = zero_float;
    map_odom_ty = zero_float;
    map_odom_tz = zero_float;
    map_odom_rx = zero_float;
    map_odom_ry = zero_float;
    map_odom_rz = zero_float;
    map_odom_rw = zero_float;
    bfp_tx = zero_float;
    bfp_ty = zero_float;
    bfp_tz = zero_float;
    bfp_rx = zero_float;
    bfp_ry = zero_float;
    bfp_rz = zero_float;
    bfp_rw = zero_float;
    bfp_yaw = zero_float;
  }

  abbrev pub zero_laser : LaserData F
  zero_laser = record {
    frame_id = "";
    angle_min = zero_float;
    angle_max = zero_float;
    angle_increment = zero_float;
    range_min = zero_float;
    range_max = zero_float;
    ranges = [];
  }

  abbrev pub zero_pose : Pose2D F
  zero_pose = record { x = zero_float; y = zero_float; theta = zero_float }
