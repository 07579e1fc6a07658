-- ===== src/Examples/Messages.antt =====
-- Messages that a client sends and receives.
use rom_go_app.Prelude.{
  ℕ, ◌-◌, ◌<◌, ◌≤◌, ◌+◌, ◌*◌, ◌≡◌, refl, String, false, true, none, some, List, [], ◌∷◌, ◌++◌,
  ◌+++◌, map, arith, negsuc, int_value, int8_value, int_mod, take_last, length,
}
use rom_go_app.Rosbridge.Types.{TwistData}
use rom_go_app.Rosbridge.Protocol.{publish_msg}
use rom_go_app.Rosbridge.Client.{Client}
use rom_go_app.Rosbridge.Client.CmdVel.{twist_msg, publish_cmd_vel_tick}
use rom_go_app.Rosbridge.Client.CmdVel.Publishing.{
  IsDriving, drive_ticks, changes, drive_ticks-sent, tick-tick,
}
use rom_go_app.Rosbridge.Client.Topics.{subscribe_all_topics}
use rom_go_app.Rosbridge.Client.Parsers.{
  to_cell, parse_map, parse_twist, parse_tf, parse_odom, parse_laser, parse_map_bfp,
}
use rom_go_app.Rosbridge.Client.Parsers.Cells.{to_cell_value}
use rom_go_app.Rosbridge.Client.Parsers.Transforms.{
  last_map_odom, last_base, expected_tf, parse_tf_lem,
}
use rom_go_app.Rosbridge.Client.Inbound.{handle_publish}
use rom_go_app.Rosbridge.Client.Inbound.Routing.{subscribed_routes}
use rom_go_app.Rosbridge.Client.CmdVel.{same_cmd}
use rom_go_app.Robot.{new_robot, measure_hz, second}
use rom_go_app.Robot.Sensors.{measure_hz_lem}
use rom_go_app.Robot.History.{receive_twists, twists, new_robot-history}
use rom_go_app.Examples.{fl, codec, net, transforms, live, twist}

abbrev driving : Client ℕ
driving = record live { cmd_vel_enabled = true; topic_cmd_vel = "/r1/cmd_vel" }

abbrev commands : List (TwistData ℕ)
commands = twist 0 ∷ twist 2 ∷ twist 2 ∷ twist 0 ∷ []

driving-IsDriving : IsDriving driving
driving-IsDriving = record { connected = refl; socket = refl; enabled = refl; topic = λ e. cc }

drive_ticks-sent_example :
    (drive_ticks fl net driving commands).sent
    ≡ driving.sent
      ++ map
          (λ t. publish_msg driving.topic_cmd_vel (twist_msg fl t))
          (changes fl net driving.last_twist commands)
drive_ticks-sent_example = drive_ticks-sent fl net driving commands driving-IsDriving

tick-tick_example :
    let commanded = record driving { desired_twist = twist 2 } in
    publish_cmd_vel_tick fl net (publish_cmd_vel_tick fl net commanded)
    ≡ publish_cmd_vel_tick fl net commanded
unfolding same_cmd
tick-tick_example = tick-tick fl net (record driving { desired_twist = twist 2 }) refl

parse_tf_lem_example :
    let m = last_map_odom live.global_map_odom.transform transforms in
    ((parse_tf fl codec [] live).0.global_map_odom.transform ≡ m)
    × ((parse_tf fl codec [] live).1 ≡ expected_tf fl m (last_base none transforms))
parse_tf_lem_example = parse_tf_lem fl codec [] live transforms refl refl

subscribed_routes_example :
    let d = subscribe_all_topics net live in
    let route = λ (name : String). handle_publish fl codec (live.ns +++ name) [] d in
    (route "/map" ≡ (d, parse_map codec [] d))
    × (route "/diff_controller/cmd_vel_unstamped" ≡ (d, parse_twist codec [] d))
    × (route "/tf" ≡ parse_tf fl codec [] d)
    × (route "/odom" ≡ (d, parse_odom fl codec [] false d))
    × (route "/diff_controller/odom" ≡ (d, parse_odom fl codec [] true d))
    × (route "/scan" ≡ (d, parse_laser codec [] d))
    × (route "/map_bfp_publisher" ≡ (d, parse_map_bfp codec [] d))
subscribed_routes_example = subscribed_routes fl codec net [] live

to_cell_value_example :
    (200 < 128 → int8_value (to_cell 200) ≡ int_value 200)
    × (128 ≤ 200 → 200 < 256 → int8_value (to_cell 200) ≡ negsuc (255 - 200))
    × (int_mod - 128 ≤ 200 → int8_value (to_cell 200) ≡ int_value 200)
to_cell_value_example = to_cell_value 200 (omega arith)

measure_hz_lem_example :
    ((measure_hz 300000000 none) ≡ (some 300000000, 0))
    × ((measure_hz 300000000 (some 200000000)).0 ≡ some 300000000)
    × (300000000 ≤ 200000000 → (measure_hz 300000000 (some 200000000)).1 ≡ 0)
    × (200000000 < 300000000
        → let hz = (measure_hz 300000000 (some 200000000)).1 in
          (hz * (300000000 - 200000000) ≤ second) × (second < (hz + 1) * (300000000 - 200000000)))
measure_hz_lem_example = measure_hz_lem 300000000 200000000

abbrev samples : List (ℕ × TwistData ℕ)
samples = (1, twist 1) ∷ (2, twist 2) ∷ (3, twist 3) ∷ []

new_robot-history_example :
    let h =
      (receive_twists samples (new_robot fl "1" "/r1" "one" "10.0.0.1" 9090)).velocity_history in
    (h ≡ take_last 100 (twists samples)) × (length h ≤ 100)
new_robot-history_example = new_robot-history fl "1" "/r1" "one" "10.0.0.1" 9090 samples
