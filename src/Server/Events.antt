-- ===== src/Server/Events.antt =====
-- Every event of the server is one change of the registry.
use rom_go_app.Prelude.{String, Option, none, some, Float64}
use rom_go_app.Rosbridge.Codec.{Raw}
use rom_go_app.Robot.{on_callback, on_connected, on_disconnected}
use rom_go_app.Manager.{Manager, deliver, robot_connected, robot_disconnected}
use rom_go_app.Prelude.{[], ◌∷◌}
use rom_go_app.Hub.Delivery.{broadcast_all}
use rom_go_app.Manager.Evolution.{switches, clears, updates}
use rom_go_app.Browser.{
  Action, joystick, stop, switches_robot, request_map, request_status, voice, connects_robot,
  disconnects_robot, unknown_action, drive, switch_to, speak, act, handle_ws_command,
}
use rom_go_app.Server.{
  Env, route, respond, Event, requests, commands_in, calls_back, comes_up, goes_down, settles,
  speaks, turns as client_turns, shuts_down, step,
}
use rom_go_app.Server.Kept.{Kept-Sound}
use rom_go_app.Server.Robots.{
  stop_connection-Kept, set_velocity-Kept, on_callback-Kept, on_connected-Kept,
  on_disconnected-Kept,
}
use rom_go_app.Server.Edits.{settle-Kept}
use rom_go_app.Server.Changes.{Checked, Changes, stays, update_robot-Changes, told-Changes}
use rom_go_app.Server.Requests.{answer-Changes}
use rom_go_app.Server.{HttpRequest}
use rom_go_app.Server.Kept.{Watch, nothing, names, links, Allows}
use rom_go_app.Rosbridge.Client.Lifecycle.Moves.{rests, turns}
use rom_go_app.Rosbridge.Client.Lifecycle.Calls.{send_voice_command-Moves}

-- An event that is not the import of a list of points, where the names are watched.
abbrev pub CheckedEvent : {F : Type 0} → Watch → Event F → Type 0
CheckedEvent names (requests req) = Checked names (route req.path)
CheckedEvent _ _ = Unit

CheckedEvent-Checked :
    {F : Type 0} (watch : Watch) (req : HttpRequest F)
    → CheckedEvent watch (requests req)
    → Checked watch (route req.path)
CheckedEvent-Checked nothing req c = tt
CheckedEvent-Checked names req c = c
CheckedEvent-Checked links req c = tt

module _ {F : Type 0} (fl : Float64 F) (watch : Watch) where
  drive-Changes :
      (env : Env F) (j : Option (F × F)) (id : String) (m : Manager F)
      → Allows fl watch env.meanwhile
      → Changes fl watch m
          (drive fl env.codec env.commands env.net env.now env.meanwhile env.stop_taken j id m)
  unfolding drive
  drive-Changes env none id m a = stays fl watch m
  drive-Changes env (some (x, z)) id m a =
      update_robot-Changes fl watch env.meanwhile id _ m a (set_velocity-Kept fl env.meanwhile x z)

  switch_to-Changes :
      (env : Env F) (k : Option String) (m : Manager F)
      → Changes fl watch m
          (switch_to fl env.codec env.commands env.net env.now env.meanwhile env.stop_taken k m)
  unfolding switch_to
  switch_to-Changes env none m = stays fl watch m
  switch_to-Changes env (some id) m = switches id

  speak-Changes :
      (env : Env F) (t : Option String) (id : String) (m : Manager F)
      → Allows fl watch env.meanwhile
      → Changes fl watch m
          (speak fl env.codec env.commands env.net env.now env.meanwhile env.stop_taken t id m)
  unfolding speak
  speak-Changes env none id m a = stays fl watch m
  speak-Changes env (some text) id m a =
      told-Changes fl watch env.meanwhile id _ m a
        (send_voice_command-Moves fl env.codec env.net env.now env.meanwhile text)

  act-Changes :
      (env : Env F) (a : Action) (id : String) (raw : Raw) (m : Manager F)
      → Allows fl watch env.meanwhile
      → Changes fl watch m
          (act fl env.codec env.commands env.net env.now env.meanwhile env.stop_taken a id raw m).0
  unfolding act
  act-Changes env joystick id raw m a = drive-Changes env (env.commands.joystick raw) id m a
  act-Changes env stop id raw m a = drive-Changes env _ id m a
  act-Changes env switches_robot id raw m a = switch_to-Changes env (env.commands.switch_id raw) m
  act-Changes env request_map id raw m a = stays fl watch m
  act-Changes env request_status id raw m a = stays fl watch m
  act-Changes env voice id raw m a = speak-Changes env (env.commands.voice_text raw) id m a
  act-Changes env connects_robot id raw m a = stays fl watch m
  act-Changes env disconnects_robot id raw m a =
      update_robot-Changes fl watch env.meanwhile id _ m a
        (stop_connection-Kept fl env.meanwhile env.net env.stop_taken)
  act-Changes env unknown_action id raw m a = stays fl watch m

  pub step-Changes :
      (env : Env F) (e : Event F) (m : Manager F)
      → CheckedEvent watch e
      → Allows fl watch env.meanwhile
      → Changes fl watch m (step fl env e m)
  unfolding step respond handle_ws_command deliver robot_connected robot_disconnected broadcast_all
  step-Changes env (requests req) m c a =
      answer-Changes fl watch env (route req.path) req m (CheckedEvent-Checked watch req c) a
  step-Changes env (commands_in cmd) m c a = act-Changes env _ _ cmd.data_bytes m a
  step-Changes env (calls_back id callback) m c a =
      updates id (on_callback env.now callback) (_ ∷ [])
        (Kept-Sound fl watch env.meanwhile _ a (on_callback-Kept fl env.meanwhile env.now callback))
  step-Changes env (comes_up id) m c a =
      updates id (on_connected env.net) (_ ∷ [])
        (Kept-Sound fl watch env.meanwhile _ a (on_connected-Kept fl env.meanwhile env.net))
  step-Changes env (goes_down id) m c a =
      updates id on_disconnected (_ ∷ [])
        (Kept-Sound fl watch env.meanwhile _ a (on_disconnected-Kept fl env.meanwhile))
  step-Changes env (settles id) m c a =
      update_robot-Changes fl watch env.meanwhile id _ m a
        (settle-Kept fl env.codec env.net env.now env.meanwhile env.dial)
  step-Changes env (speaks id text) m c a =
      told-Changes fl watch env.meanwhile id _ m a
        (send_voice_command-Moves fl env.codec env.net env.now env.meanwhile text)
  step-Changes env (client_turns id e) m c a =
      told-Changes fl watch env.meanwhile id _ m a (λ w c. turns env.codec env.net e rests)
  step-Changes env (shuts_down stop_taken) m c a = clears env.net stop_taken
