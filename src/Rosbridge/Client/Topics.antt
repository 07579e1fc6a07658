-- ===== src/Rosbridge/Client/Topics.antt =====
-- rosbridge/client.go: the subscriptions. An empty name stands for the default topic; the errors of
-- `send` are dropped, as in the source.
use rom_go_app.Prelude.{String, List, [], ◌∷◌, if◌then◌else◌, ◌=?◌, ◌+++◌}
use rom_go_app.Rosbridge.Protocol.{
  subscribe_msg, unsubscribe_msg, type_occupancy_grid, type_twist, type_tf_message, type_odometry,
  type_laser_scan,
}
use rom_go_app.Rosbridge.Client.{Client, Network, send}

-- `if topic == "" { topic = fallback }`
abbrev or_default : String → String → String
or_default topic fallback = if topic =? "" then fallback else topic

module _ {F : Type 0} (net : Network F) where
  unfoldable pub subscribe_map : Client F → String → Client F
  subscribe_map c topic =
      let named = record c { topic_map = c.ns +++ or_default topic "/map" } in
      (send net named (subscribe_msg named.topic_map type_occupancy_grid)).0

  unfoldable pub subscribe_cmd_vel : Client F → String → Client F
  subscribe_cmd_vel c topic =
      let named = record c {
        topic_cmd_vel = c.ns +++ or_default topic "/diff_controller/cmd_vel_unstamped";
      } in
      (send net named (subscribe_msg named.topic_cmd_vel type_twist)).0

  unfoldable pub subscribe_tf : Client F → String → Client F
  subscribe_tf c topic =
      let named = record c { topic_tf = c.ns +++ or_default topic "/tf" } in
      (send net named (subscribe_msg named.topic_tf type_tf_message)).0

  unfoldable pub subscribe_odom : Client F → String → Client F
  subscribe_odom c topic =
      let named = record c { topic_odom = c.ns +++ or_default topic "/odom" } in
      (send net named (subscribe_msg named.topic_odom type_odometry)).0

  unfoldable pub subscribe_controller_odom : Client F → String → Client F
  subscribe_controller_odom c topic =
      let named = record c {
        topic_ctrl_odom = c.ns +++ or_default topic "/diff_controller/odom";
      } in
      (send net named (subscribe_msg named.topic_ctrl_odom type_odometry)).0

  unfoldable pub subscribe_laser : Client F → String → Client F
  subscribe_laser c topic =
      let named = record c { topic_laser = c.ns +++ or_default topic "/scan" } in
      (send net named (subscribe_msg named.topic_laser type_laser_scan)).0

  unfoldable pub subscribe_map_bfp : Client F → String → Client F
  subscribe_map_bfp c topic =
      let named = record c { topic_map_bfp = c.ns +++ or_default topic "/map_bfp_publisher" } in
      (send net named (subscribe_msg named.topic_map_bfp "")).0

  unfoldable pub subscribe_all_topics : Client F → Client F
  subscribe_all_topics c0 =
      let c1 = subscribe_map c0 "" in
      let c2 = subscribe_tf c1 "" in
      let c3 = subscribe_odom c2 "" in
      let c4 = subscribe_controller_odom c3 "" in
      let c5 = subscribe_laser c4 "" in let c6 = subscribe_map_bfp c5 "" in subscribe_cmd_vel c6 ""

  unfoldable pub unsubscribe_each : List String → Client F → Client F
  unsubscribe_each [] c = c
  unsubscribe_each (t ∷ topics) c =
      unsubscribe_each topics (if t =? "" then c else (send net c (unsubscribe_msg t)).0)

  unfoldable pub unsubscribe_all : Client F → Client F
  unsubscribe_all c =
      unsubscribe_each
        (c.topic_map ∷ c.topic_cmd_vel ∷ c.topic_tf ∷ c.topic_odom ∷ c.topic_ctrl_odom
          ∷ c.topic_laser ∷ c.topic_map_bfp ∷ [])
        c
