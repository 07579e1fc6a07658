-- ===== src/Browser.antt =====
-- handlers/ws_handler.go: the session of one browser. The goroutine that writes forwards the
-- broadcasts, and the one that reads runs the browser's commands.
pub mod Throttle
pub mod Writer
pub mod Commands
use rom_go_app.Prelude.{
  ℕ, ◌-◌, String, Bool, true, false, not, Option, none, some, List, [], ◌∷◌, Float64, if◌then◌else◌,
  ltb, ◌=?◌,
}
use rom_go_app.Rosbridge.Codec.{Raw, Codec}
use rom_go_app.Rosbridge.Client.{Client, Network, is_connected}
use rom_go_app.Rosbridge.Client.Replies.{send_voice_command}
use rom_go_app.Robot.{Robot, get_map, get_snapshot, set_velocity, with_client, stop_connection}
use rom_go_app.Manager.{
  BroadcastMsg, Manager, map_data, robot_data, get_robot, get_current_robot_id, switch_robot,
  update_robot,
}

-- 500 ms in nanoseconds.
abbrev pub map_interval : ℕ
map_interval = 500000000

abbrev pub too_soon : ℕ → Option ℕ → Bool
too_soon now none = false
too_soon now (some last) = ltb (now - last) map_interval

-- The case that the writer's `select` takes in one round: `done` is closed, the channel is closed,
-- or a message is taken, at a time; with whether a `WriteJSON` of it succeeds.
pub data Pick (F : Type 0) : Type 0 where
  done_closed : Pick F
  channel_closed : Pick F
  takes : ℕ → BroadcastMsg F → Bool → Pick F

module _ {F : Type 0} where
  -- One message that the writer gets at the time `now`: the new `lastMapSend`, `none` being the zero
  -- time, and whether the message is written.
  unfoldable pub forward : ℕ → BroadcastMsg F → Option ℕ → Option ℕ × Bool
  forward now msg last =
      if msg.kind =? "map"
      then (if too_soon now last then (last, false) else (some now, true))
      else (last, true)

  -- The goroutine that writes, from the rounds of its loop on: the messages that it hands to
  -- `WriteJSON`, with their times and outcomes. It returns once a case of its `select` says so or a
  -- write fails.
  unfoldable pub writer : Option ℕ → List (Pick F) → List (ℕ × (BroadcastMsg F × Bool))
  writer last [] = []
  writer last (done_closed ∷ _) = []
  writer last (channel_closed ∷ _) = []
  writer last (takes now msg succeeds ∷ rounds) =
      let (next, written) = forward now msg last in
      let rest = writer next rounds in
      if written then (now, (msg, succeeds)) ∷ (if succeeds then rest else []) else rest

-- `WSCommand`.
pub record Command : Type 0 where
  pub kind : String
  pub robot_id : String
  pub data_bytes : Raw

-- `json.Unmarshal` of the data of the commands that have some.
pub record CommandCodec (F : Type 0) : Type 0 where
  pub joystick : Raw → Option (F × F)
  pub switch_id : Raw → Option String
  pub voice_text : Raw → Option String

-- What a command does beside its change of the registry: nothing, a message to this browser alone,
-- or the start of a goroutine that connects the robot.
pub data Reply (F : Type 0) : Type 0 where
  no_reply : Reply F
  writes : BroadcastMsg F → Reply F
  starts_connect : String → Reply F

-- The cases of the `switch`.
pub data Action : Type 0 where
  joystick stop switches_robot request_map request_status voice connects_robot disconnects_robot
        unknown_action :
      Action

unfoldable pub action : String → Action
action kind =
    if kind =? "joystick"
    then joystick
    else if kind =? "stop"
    then stop
    else if kind =? "switch_robot"
    then switches_robot
    else if kind =? "request_map"
    then request_map
    else if kind =? "request_status"
    then request_status
    else if kind =? "voice_command"
    then voice
    else if kind =? "connect"
    then connects_robot
    else if kind =? "disconnect"
    then disconnects_robot
    else unknown_action

module _ {F : Type 0} (fl : Float64 F) (codec : Codec F) (commands : CommandCodec F)
    (net : Network F) (now : ℕ) (meanwhile : Client F → Client F) (stop_taken : Bool) where
  unfoldable pub drive : Option (F × F) → String → Manager F → Manager F
  drive none id m = m
  drive (some (linear_x, angular_z)) id m = update_robot id (set_velocity fl linear_x angular_z) m

  unfoldable pub switch_to : Option String → Manager F → Manager F
  switch_to none m = m
  switch_to (some id) m = (switch_robot id m).0

  unfoldable pub speak : Option String → String → Manager F → Manager F
  speak none id m = m
  speak (some text) id m =
      update_robot id (with_client (λ c. (send_voice_command codec net now meanwhile text c).0)) m

  abbrev pub reply_with : (Robot F → Reply F) → Option (Robot F) → Reply F
  reply_with f none = no_reply
  reply_with f (some r) = f r

  abbrev pub connect_reply : String → Option (Client F) → Reply F
  connect_reply id none = no_reply
  connect_reply id (some c) = if is_connected c then no_reply else starts_connect id

  unfoldable pub act : Action → String → Raw → Manager F → Manager F × Reply F
  act joystick id raw m = (drive (commands.joystick raw) id m, no_reply)
  act stop id raw m = (drive (some (fl.zero_float, fl.zero_float)) id m, no_reply)
  act switches_robot id raw m = (switch_to (commands.switch_id raw) m, no_reply)
  act request_map id raw m = (
    m,
    reply_with
        (λ r. writes (record { kind = "map"; robot_id = id; payload = map_data (get_map r) }))
        (get_robot id m),
  )
  act request_status id raw m = (
    m,
    reply_with
        (λ r.
          writes
            (record { kind = "status"; robot_id = id; payload = robot_data (get_snapshot fl r) }))
        (get_robot id m),
  )
  act voice id raw m = (speak (commands.voice_text raw) id m, no_reply)
  act connects_robot id raw m = (m, reply_with (λ r. connect_reply id r.client) (get_robot id m))
  act disconnects_robot id raw m = (update_robot id (stop_connection net stop_taken) m, no_reply)
  act unknown_action id raw m = (m, no_reply)

  -- A command without a robot's id is for the current one.
  unfoldable pub target : Command → Manager F → String
  target cmd m = if cmd.robot_id =? "" then get_current_robot_id m else cmd.robot_id

  unfoldable pub handle_ws_command : Command → Manager F → Manager F × Reply F
  handle_ws_command cmd m = act (action cmd.kind) (target cmd m) cmd.data_bytes m
