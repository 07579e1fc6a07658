-- ===== src/Rosbridge/Client/Parsers.antt =====
-- rosbridge/client.go: the parsers of the subscribed messages. Each ends in a call of a callback, or
-- in none.
pub mod Cells
pub mod Transforms
use rom_go_app.Prelude.{
  ℕ, ◌+◌, ◌-◌, ◌%◌, ◌^◌, Bool, true, false, ◌&&◌, Option, none, some, List, [], ◌∷◌, map, Float64,
  if◌then◌else◌, ◌=?◌, gt_int, int_mod,
}
use rom_go_app.Rosbridge.Types.{
  MapData, TwistData, TfData, OdomData, LaserData, Pose2D, Transform, TransformStamped, yaw,
  odom_from_msg, zero_stamped, zero_tf,
}
use rom_go_app.Rosbridge.Codec.{Raw, Codec}
use rom_go_app.Rosbridge.Client.{Client}

-- A call of one of the client's callbacks.
pub data Callback (F : Type 0) : Type 0 where
  on_map : MapData F → Callback F
  on_twist : TwistData F → Callback F
  on_tf : TfData F → Callback F
  on_odom : OdomData F → Callback F
  on_ctrl_odom : OdomData F → Callback F
  on_laser : LaserData F → Callback F
  on_map_bfp : Pose2D F → Callback F

-- The loop body of `parseMap`: the cell of the `int` with the bit pattern `v`.
unfoldable pub to_cell : ℕ → ℕ
to_cell v =
    let lowered = if gt_int v 127 then (v + int_mod - 256) % int_mod else v in lowered % 2 ^ 8

-- What the loop of `parseTF` carries: `globalMapOdom`, `tfData` and `emitTF`.
pub record TfLoop (F : Type 0) : Type 0 where
  pub global : TransformStamped F
  pub tf : TfData F
  pub emit : Bool

module _ {F : Type 0} where
  -- The seven assignments of a map→odom transform, and the first seven of an odom→base one.
  abbrev pub with_map_odom : Transform F → TfData F → TfData F
  with_map_odom t d = record d {
    map_odom_tx = t.translation.x;
    map_odom_ty = t.translation.y;
    map_odom_tz = t.translation.z;
    map_odom_rx = t.rotation.x;
    map_odom_ry = t.rotation.y;
    map_odom_rz = t.rotation.z;
    map_odom_rw = t.rotation.w;
  }

module _ {F : Type 0} (fl : Float64 F) where
  abbrev pub with_bfp : Transform F → TfData F → TfData F
  with_bfp t d = record d {
    bfp_tx = t.translation.x;
    bfp_ty = t.translation.y;
    bfp_tz = t.translation.z;
    bfp_rx = t.rotation.x;
    bfp_ry = t.rotation.y;
    bfp_rz = t.rotation.z;
    bfp_rw = t.rotation.w;
    bfp_yaw = yaw fl t.rotation;
  }

  unfoldable pub tf_body : TransformStamped F → TfLoop F → TfLoop F
  tf_body t s =
      if (t.header.frame_id =? "map") && (t.child_frame_id =? "odom")
      then record s {
        global = record (zero_stamped fl) { transform = t.transform };
        tf = with_map_odom t.transform s.tf;
      }
      else if (t.header.frame_id =? "odom") && (t.child_frame_id =? "base_footprint")
      then record s {
        tf = with_bfp t.transform (with_map_odom s.global.transform s.tf);
        emit = true;
      }
      else s

  unfoldable pub tf_loop : List (TransformStamped F) → TfLoop F → TfLoop F
  unfolding tf_body
  tf_loop [] s = s
  tf_loop (t ∷ ts) s = tf_loop ts (tf_body t s)

  unfoldable pub parse_tf : Codec F → Raw → Client F → Client F × Option (Callback F)
  unfolding tf_loop
  parse_tf codec msg c =
      if c.wired
      then (elim (codec.transforms msg) [
        | none ↦ (c, none)
        | some transforms ↦
            let done =
              tf_loop transforms
                (record { global = c.global_map_odom; tf = zero_tf fl; emit = false }) in
            (
              record c { global_map_odom = done.global },
              if done.emit then some (on_tf done.tf) else none,
            )
      ])
      else (c, none)

  unfoldable pub parse_odom : Codec F → Raw → Bool → Client F → Option (Callback F)
  parse_odom codec msg is_controller c = elim (codec.odometry msg) [
    | none ↦ none
    | some odom ↦
        let d = odom_from_msg fl odom in
        if c.wired then some (if is_controller then on_ctrl_odom d else on_odom d) else none
  ]

module _ {F : Type 0} (codec : Codec F) where
  unfoldable pub parse_map : Raw → Client F → Option (Callback F)
  unfolding to_cell
  parse_map msg c =
      if c.wired
      then (elim (codec.grid msg) [
        | none ↦ none
        | some grid ↦ some (
            on_map (record {
              width = grid.width;
              height = grid.height;
              resolution = grid.resolution;
              origin_x = grid.origin_x;
              origin_y = grid.origin_y;
              cells = map to_cell grid.cells;
            }))
      ])
      else none

  unfoldable pub parse_twist : Raw → Client F → Option (Callback F)
  parse_twist msg c =
      if c.wired
      then (elim (codec.twist msg) [
        | none ↦ none
        | some m ↦ some (
            on_twist (record {
              linear_x = m.linear.x;
              linear_y = m.linear.y;
              linear_z = m.linear.z;
              angular_x = m.angular.x;
              angular_y = m.angular.y;
              angular_z = m.angular.z;
            }))
      ])
      else none

  unfoldable pub parse_laser : Raw → Client F → Option (Callback F)
  parse_laser msg c =
      if c.wired
      then (elim (codec.laser_scan msg) [
        | none ↦ none
        | some scan ↦ some (
            on_laser (record {
              frame_id = scan.header.frame_id;
              angle_min = scan.angle_min;
              angle_max = scan.angle_max;
              angle_increment = scan.angle_increment;
              range_min = scan.range_min;
              range_max = scan.range_max;
              ranges = scan.ranges;
            }))
      ])
      else none

  unfoldable pub parse_map_bfp : Raw → Client F → Option (Callback F)
  parse_map_bfp msg c =
      if c.wired
      then (elim (codec.pose2d msg) [ none ↦ none | some p ↦ some (on_map_bfp p) ])
      else none
