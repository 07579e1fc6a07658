-- ===== src/Rosbridge/Client/CmdVel.antt =====
-- rosbridge/client.go: the velocity commands. The publisher's tick reads the client, sends and
-- writes `lastTwist` under three holds of the lock; here one tick runs without a break.
pub mod Publishing
use rom_go_app.Prelude.{String, Bool, ◌&&◌, ◌||◌, not, Float64, if◌then◌else◌, ◌=?◌, ◌+++◌}
use rom_go_app.Rosbridge.Types.{TwistData}
use rom_go_app.Rosbridge.Protocol.{Json, number, object, field, end, publish_msg}
use rom_go_app.Rosbridge.Client.{Client, Network, send}

module _ {F : Type 0} where
  unfoldable pub set_desired_cmd_vel : Client F → TwistData F → Client F
  set_desired_cmd_vel c twist = record c { desired_twist = twist }

  unfoldable pub set_cmd_vel_enabled : Client F → Bool → Client F
  set_cmd_vel_enabled c enabled = record c { cmd_vel_enabled = enabled }

  unfoldable pub set_cmd_vel_topic : Client F → String → Client F
  set_cmd_vel_topic c topic = record c { topic_cmd_vel = c.ns +++ topic }

module _ {F : Type 0} (fl : Float64 F) where
  open fl use {zero_float, eqb}

  -- The body of a `geometry_msgs/msg/Twist` with the three published components.
  unfoldable pub twist_msg : TwistData F → Json F
  twist_msg t = object (
      field "linear"
        (object (
          field "x" (number t.linear_x)
            (field "y" (number t.linear_y) (field "z" (number zero_float) end))))
        (field "angular"
          (object (
            field "x" (number zero_float)
              (field "y" (number zero_float) (field "z" (number t.angular_z) end))))
          end))

  -- The test "only publish on change".
  unfoldable pub same_cmd : TwistData F → TwistData F → Bool
  same_cmd desired last =
      eqb desired.linear_x last.linear_x
      && eqb desired.angular_z last.angular_z
      && eqb desired.linear_y last.linear_y

  unfoldable pub publish_cmd_vel_tick : Network F → Client F → Client F
  publish_cmd_vel_tick net c =
      if not c.connected || not c.cmd_vel_enabled
      then c
      else if c.topic_cmd_vel =? ""
      then c
      else if same_cmd c.desired_twist c.last_twist
      then c
      else (let published =
            (send net c (publish_msg c.topic_cmd_vel (twist_msg c.desired_twist))).0 in
          record published { last_twist = c.desired_twist })
