-- ===== src/Browser/Commands.antt =====
-- What the commands of a browser can do to the registry.
use rom_go_app.Prelude.{ℕ, ◌≡◌, ◌≢◌, refl, Bool, String, Option, none, some, Float64, ap}
use rom_go_app.Rosbridge.Codec.{Raw, Codec}
use rom_go_app.Rosbridge.Client.{Client, Network}
use rom_go_app.Rosbridge.Client.Replies.{send_voice_command}
use rom_go_app.Robot.{Robot, set_velocity, with_client, stop_connection}
use rom_go_app.Manager.{Manager, get_robot, update_robot}
use rom_go_app.Manager.Invariant.{Registry}
use rom_go_app.Manager.Updates.{KeepsIdentity, update_robot-Registry}
use rom_go_app.Manager.Registry.{switch_robot-Registry}
use rom_go_app.Browser.{
  Command, CommandCodec, no_reply, Action, joystick, stop, switches_robot, request_map,
  request_status, voice, connects_robot, disconnects_robot, unknown_action, action, drive,
  switch_to, speak, act, target, handle_ws_command,
}

module _ {F : Type 0} where
  with_client-KeepsIdentity : (f : Client F → Client F) → KeepsIdentity (with_client f)
  with_client-KeepsIdentity f r = (refl, refl, refl)

  stop_connection-KeepsIdentity :
      (net : Network F) (stop_taken : Bool) → KeepsIdentity (stop_connection net stop_taken)
  unfolding stop_connection
  stop_connection-KeepsIdentity net stop_taken r = (refl, refl, refl)

  set_velocity-KeepsIdentity :
      (fl : Float64 F) (linear_x angular_z : F) → KeepsIdentity (set_velocity fl linear_x angular_z)
  unfolding set_velocity
  set_velocity-KeepsIdentity fl linear_x angular_z r = (refl, refl, refl)

  update_robot_absent :
      (id : String) (f : Robot F → Robot F) (m : Manager F)
      → get_robot id m ≡ none
      → update_robot id f m ≡ m
  unfolding update_robot get_robot
  update_robot_absent id f m e = rw (e, update_robot) refl

module _ {F : Type 0} (fl : Float64 F) (codec : Codec F) (commands : CommandCodec F)
    (net : Network F) (now : ℕ) (meanwhile : Client F → Client F) (stop_taken : Bool) where
  drive-Registry :
      (j : Option (F × F)) (id : String) (m : Manager F)
      → Registry m
      → Registry (drive fl codec commands net now meanwhile stop_taken j id m)
  unfolding drive
  drive-Registry none id m v = v
  drive-Registry (some (x, z)) id m v =
      update_robot-Registry id _ m (set_velocity-KeepsIdentity fl x z) v

  switch_to-Registry :
      (k : Option String) (m : Manager F)
      → Registry m
      → Registry (switch_to fl codec commands net now meanwhile stop_taken k m)
  unfolding switch_to
  switch_to-Registry none m v = v
  switch_to-Registry (some id) m v = switch_robot-Registry id m v

  speak-Registry :
      (t : Option String) (id : String) (m : Manager F)
      → Registry m
      → Registry (speak fl codec commands net now meanwhile stop_taken t id m)
  unfolding speak
  speak-Registry none id m v = v
  speak-Registry (some text) id m v =
      let told = λ (c : Client F). (send_voice_command codec net now meanwhile text c).0 in
      update_robot-Registry id (with_client told) m (with_client-KeepsIdentity told) v

  act-Registry :
      (a : Action) (id : String) (raw : Raw) (m : Manager F)
      → Registry m
      → Registry (act fl codec commands net now meanwhile stop_taken a id raw m).0
  unfolding act
  act-Registry joystick id raw m v = drive-Registry (commands.joystick raw) id m v
  act-Registry stop id raw m v = drive-Registry _ id m v
  act-Registry switches_robot id raw m v = switch_to-Registry (commands.switch_id raw) m v
  act-Registry request_map id raw m v = v
  act-Registry request_status id raw m v = v
  act-Registry voice id raw m v = speak-Registry (commands.voice_text raw) id m v
  act-Registry connects_robot id raw m v = v
  act-Registry disconnects_robot id raw m v =
      update_robot-Registry id _ m (stop_connection-KeepsIdentity net stop_taken) v
  act-Registry unknown_action id raw m v = v

  -- Whatever a browser sends, the registry stays well-formed: robots stand under their own ids, no
  -- two have one address, and the current id is that of a robot unless there is none.
  pub handle_ws_command-Registry :
      (cmd : Command) (m : Manager F)
      → Registry m
      → Registry (handle_ws_command fl codec commands net now meanwhile stop_taken cmd m).0
  unfolding handle_ws_command
  handle_ws_command-Registry cmd m v = act-Registry _ _ cmd.data_bytes m v

  drive_absent :
      (j : Option (F × F)) (id : String) (m : Manager F)
      → get_robot id m ≡ none
      → drive fl codec commands net now meanwhile stop_taken j id m ≡ m
  unfolding drive
  drive_absent none id m e = refl
  drive_absent (some (x, z)) id m e = update_robot_absent id _ m e

  speak_absent :
      (t : Option String) (id : String) (m : Manager F)
      → get_robot id m ≡ none
      → speak fl codec commands net now meanwhile stop_taken t id m ≡ m
  unfolding speak
  speak_absent none id m e = refl
  speak_absent (some text) id m e = update_robot_absent id _ m e

  act_absent :
      (a : Action) (id : String) (raw : Raw) (m : Manager F)
      → a ≢ switches_robot
      → get_robot id m ≡ none
      → act fl codec commands net now meanwhile stop_taken a id raw m ≡ (m, no_reply)
  unfolding act
  act_absent joystick id raw m n e =
      ap (λ w. (w, no_reply)) (drive_absent (commands.joystick raw) id m e)
  act_absent stop id raw m n e = ap (λ w. (w, no_reply)) (drive_absent _ id m e)
  act_absent switches_robot id raw m n e = absurd (n refl)
  act_absent request_map id raw m n e = rw e refl
  act_absent request_status id raw m n e = rw e refl
  act_absent voice id raw m n e =
      ap (λ w. (w, no_reply)) (speak_absent (commands.voice_text raw) id m e)
  act_absent connects_robot id raw m n e = rw e refl
  act_absent disconnects_robot id raw m n e = ap (λ w. (w, no_reply)) (update_robot_absent id _ m e)
  act_absent unknown_action id raw m n e = refl

  -- A command other than a switch, for a robot that is not in the registry, changes nothing and is
  -- answered by nothing.
  pub handle_ws_command-absent :
      (cmd : Command) (m : Manager F)
      → action cmd.kind ≢ switches_robot
      → get_robot (target fl codec commands net now meanwhile stop_taken cmd m) m ≡ none
      → handle_ws_command fl codec commands net now meanwhile stop_taken cmd m ≡ (m, no_reply)
  unfolding handle_ws_command
  handle_ws_command-absent cmd m n e = act_absent (action cmd.kind) _ cmd.data_bytes m n e
