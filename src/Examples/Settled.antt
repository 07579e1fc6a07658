-- ===== src/Examples/Settled.antt =====
-- A run of the server in which a robot's goroutine connects its client.
use rom_go_app.Prelude.{
  ℕ, ◌≡◌, refl, true, Option, none, some, List, [], ◌∷◌, All, arith, sprint_int,
}
use rom_go_app.Rosbridge.Client.{Client, new_client, connect, dial_url, send}
use rom_go_app.Rosbridge.Client.CmdVel.{set_desired_cmd_vel, publish_cmd_vel_tick}
use rom_go_app.Rosbridge.Client.Services.{call_service, begin_call, finish_call}
use rom_go_app.Rosbridge.Client.Replies.{handshake}
use rom_go_app.Rosbridge.Client.Lifecycle.Steps as Lifecycle
use rom_go_app.Rosbridge.Client.Lifecycle.Steps.{publisher_ticks, publisher_turn}
use rom_go_app.Rosbridge.Client.Lifecycle.Link.{link}
use rom_go_app.Rosbridge.Client.Lifecycle.Invariant.{IsServed}
use rom_go_app.Rosbridge.Client.Lifecycle.Moves.{Moving, rests, turns}
use rom_go_app.Robot.{Robot, new_robot, set_velocity, set_radius}
use rom_go_app.Manager.{new_manager, add_robot, has_address, get_robot, update_robot}
use rom_go_app.Api.{add_robot_request, add_robot_at, port_of, settle}
use rom_go_app.Browser.{handle_ws_command, act, action, drive, target}
use rom_go_app.Server.{
  Env, Event, requests, commands_in, settles, route, robots_by_method, answer, respond, step, run,
}
use rom_go_app.Server.Composition.{run-new_server-Linked}
use rom_go_app.Examples.{fl, codec, net, live}
use rom_go_app.Examples.Browser.{driven}
use rom_go_app.Examples.Server.{env, request}

-- The publisher runs while a call waits.
abbrev busy_env : Env ℕ
busy_env = record env { meanwhile = λ c. Lifecycle.step fl codec net c publisher_ticks }

-- The goroutine of a new robot connects its client, and then a command of a browser steers it.
abbrev settled : List (Env ℕ × Event ℕ)
settled =
    (env, requests (request "POST" "/api/robots"))
    ∷ (busy_env, settles "1")
    ∷ (env, commands_in driven)
    ∷ []

others_move : All (λ (e : Env ℕ × Event ℕ). Moving fl e.0.meanwhile) settled
others_move = (λ c. rests, (λ c. turns codec net publisher_ticks rests, (λ c. rests, tt)))

abbrev robot_or : Robot ℕ → Option (Robot ℕ) → Robot ℕ
robot_or r none = r
robot_or r (some s) = s

abbrev client_or : Client ℕ → Option (Client ℕ) → Client ℕ
client_or c none = c
client_or c (some d) = d

abbrev settled_robot : Robot ℕ
settled_robot =
    robot_or (new_robot fl "1" "/r1" "one" "10.0.0.1" 9090)
      (get_robot "1" (run fl settled new_manager))

abbrev settled_client : Client ℕ
settled_client = client_or live settled_robot.client

settled_found : get_robot "1" (run fl settled new_manager) ≡ some settled_robot
unfolding run step respond answer route robots_by_method add_robot_request add_robot_at port_of
    add_robot has_address new_manager get_robot sprint_int update_robot handle_ws_command act action
    drive target
settled_found = refl

settled_linked : settled_robot.client ≡ some settled_client
unfolding run step respond answer route robots_by_method add_robot_request add_robot_at port_of
    add_robot has_address new_manager get_robot sprint_int update_robot settle new_robot
    handle_ws_command act drive set_velocity set_radius action target connect new_client dial_url
    handshake call_service begin_call send finish_call Lifecycle.step publisher_turn
    publish_cmd_vel_tick
settled_linked = refl

-- The client of that robot is connected.
settled_connected : settled_client.connected ≡ true
unfolding run step respond answer route robots_by_method add_robot_request add_robot_at port_of
    add_robot has_address new_manager get_robot sprint_int update_robot settle new_robot
    handle_ws_command act drive set_velocity set_radius action target connect new_client dial_url
    handshake call_service begin_call send finish_call Lifecycle.step publisher_turn
    publish_cmd_vel_tick set_desired_cmd_vel
settled_connected = refl

run-new_server-Linked_example :
    (settled_client.host ≡ settled_robot.ip)
    × (settled_client.port ≡ settled_robot.port)
    × IsServed (link settled_client)
run-new_server-Linked_example =
    run-new_server-Linked fl settled others_move (omega arith) "1" settled_robot settled_found
      settled_client settled_linked
