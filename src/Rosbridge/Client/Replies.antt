-- ===== src/Rosbridge/Client/Replies.antt =====
-- rosbridge/client.go: the service calls whose response is decoded. A response is read from its
-- "values" wrapper if that holds something, and directly otherwise.
use rom_go_app.Prelude.{ℕ, String, none, some, List, if◌then◌else◌, ◌=?◌, gt_int}
use rom_go_app.Rosbridge.Types.{WhichMapsResponse, HandshakeResponse, WhichTaskResponse}
use rom_go_app.Rosbridge.Protocol.{which_maps_args, which_task_args}
use rom_go_app.Rosbridge.Codec.{Raw, Codec}
use rom_go_app.Rosbridge.Client.{Client, Network, Result, ok, err, parse_failed}
use rom_go_app.Rosbridge.Client.Services.{call_service, which_maps_call}

abbrev pub map_result : {A B : Type 0} → (A → Result B) → Result A → Result B
map_result f (ok a) = f a
map_result f (err e) = err e

module _ {F : Type 0} (codec : Codec F) where
  abbrev direct_handshake : Raw → Result (HandshakeResponse F)
  direct_handshake raw = elim (codec.handshake raw) [ none ↦ err parse_failed | some hs ↦ ok hs ]

  unfoldable pub read_handshake : Raw → Result (HandshakeResponse F)
  read_handshake raw = elim (codec.handshake_values raw) [
    | none ↦ direct_handshake raw
    | some values ↦ if values.robot_namespace =? "" then direct_handshake raw else ok values
  ]

  unfoldable pub read_which_maps : Raw → WhichMapsResponse
  read_which_maps raw = elim (codec.which_maps_values raw) [
    | none ↦ codec.which_maps raw
    | some values ↦ if gt_int values.total_maps 0 then values else codec.which_maps raw
  ]

  unfoldable pub read_which_task : Raw → WhichTaskResponse
  read_which_task raw = elim (codec.which_task_values raw) [
    | none ↦ codec.which_task raw
    | some values ↦ if values.task_name =? "" then codec.which_task raw else values
  ]

  module _ (net : Network F) (now : ℕ) (meanwhile : Client F → Client F) where
    unfoldable pub handshake : Client F → Client F × Result (HandshakeResponse F)
    unfolding read_handshake
    handshake c =
        let args = which_maps_args "handshake" "" "" "*#5447972162718281828459#" in
        let (after, answer) = call_service net now meanwhile "/which_name" args c in
        (after, map_result read_handshake answer)

    unfoldable pub request_which_maps : Client F → Client F × Result WhichMapsResponse
    unfolding read_which_maps
    request_which_maps c =
        let (after, answer) = which_maps_call net now meanwhile "which_maps" "" "" c in
        (after, map_result (λ raw. ok (read_which_maps raw)) answer)

    unfoldable pub request_which_maps_names : Client F → Client F × Result (List String)
    unfolding request_which_maps
    request_which_maps_names c =
        let (after, answer) = request_which_maps c in
        (after, map_result (λ maps. ok maps.map_names) answer)

    unfoldable pub request_task : String → String → Client F → Client F × Result WhichTaskResponse
    unfolding read_which_task
    request_task task_name settings c =
        let (after, answer) =
          call_service net now meanwhile "/which_tasks" (which_task_args task_name settings) c in
        (after, map_result (λ raw. ok (read_which_task raw)) answer)

    unfoldable pub request_settings_read : Client F → Client F × Result WhichTaskResponse
    unfolding request_task
    request_settings_read = request_task "settings_read" ""

    unfoldable pub request_settings_save : String → Client F → Client F × Result WhichTaskResponse
    unfolding request_task
    request_settings_save yaml = request_task "settings_save" yaml

    unfoldable pub request_reboot : Client F → Client F × Result WhichTaskResponse
    unfolding request_task
    request_reboot = request_task "reboot" ""

    unfoldable pub request_power_off : Client F → Client F × Result WhichTaskResponse
    unfolding request_task
    request_power_off = request_task "poweroff" ""

    unfoldable pub send_voice_command : String → Client F → Client F × Result WhichTaskResponse
    unfolding request_task
    send_voice_command cmd = request_task "voice_command" cmd
