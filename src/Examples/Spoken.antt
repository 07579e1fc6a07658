-- ===== src/Examples/Spoken.antt =====
-- What a new client says once it is connected.
use rom_go_app.Prelude.{ℕ, true, All}
use rom_go_app.Rosbridge.Protocol.{which_maps_args}
use rom_go_app.Rosbridge.Client.{Client, new_client}
use rom_go_app.Rosbridge.Client.Topics.{subscribe_all_topics}
use rom_go_app.Rosbridge.Client.CmdVel.{set_cmd_vel_enabled}
use rom_go_app.Rosbridge.Client.Services.{begin_call}
use rom_go_app.Rosbridge.Client.Lifecycle.Steps.{connects, publisher_ticks, step}
use rom_go_app.Rosbridge.Client.Lifecycle.Moves.{Moves, rests, turns, begins, subscribes}
use rom_go_app.Rosbridge.Client.Lifecycle.Frames.{Frame}
use rom_go_app.Rosbridge.Client.Lifecycle.Spoken.{IsPolite, new_client-Frame}
use rom_go_app.Examples.{fl, codec, net, dial}

abbrev fresh : Client ℕ
fresh = new_client fl "/r1" "10.0.0.1" 9090

abbrev subscribed : Client ℕ
subscribed =
    set_cmd_vel_enabled (subscribe_all_topics net (step fl codec net fresh (connects dial))) true

abbrev asking : Client ℕ
asking =
    (begin_call net 5 "/which_maps" (which_maps_args "which_maps" "" "" "")
      (step fl codec net subscribed publisher_ticks)).0

abbrev moves : Moves fl fresh asking
moves =
    begins net 5 "/which_maps" (which_maps_args "which_maps" "" "" "")
      (turns codec net publisher_ticks (subscribes net (turns codec net (connects dial) rests)))

moves-IsPolite : IsPolite fl "/r1" moves
moves-IsPolite = (tt, (tt, tt))

new_client-Frame_example : All (Frame "/r1") asking.sent
new_client-Frame_example = new_client-Frame fl "/r1" "10.0.0.1" 9090 asking moves moves-IsPolite
