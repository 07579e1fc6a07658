-- ===== src/Examples/Calls.antt =====
-- Service calls of a client, alone and two at a time, and the sends of a robot's points.
use rom_go_app.Prelude.{
  ℕ, suc, ◌≡◌, ◌≢◌, refl, none, some, [], ◌∷◌, ◌++◌, ◌+++◌, get, eq_iff, arith, sprint_int,
}
use rom_go_app.Rosbridge.Protocol.{Json, object, end, call_service_msg}
use rom_go_app.Rosbridge.Codec.{Raw}
use rom_go_app.Rosbridge.Client.{Client, ok, err, timed_out, new_client}
use rom_go_app.Rosbridge.Client.Services.{
  unknown, call_id, begin_call, finish_call, handle_service_response, call_service,
}
use rom_go_app.Rosbridge.Client.Services.Calls.{call_service-forgets, call_service-answer}
use rom_go_app.Rosbridge.Client.Services.Channels.{HasChannels, crossed_calls, same_id_calls}
use rom_go_app.Robot.{Robot, new_robot}
use rom_go_app.Navigation.Names.{patrol_point, new_point, points}
use rom_go_app.Navigation.Remote.{call_failed}
use rom_go_app.Navigation.Remote.Sends.{
  service, list_name, send_points, points_args, send_points-request,
}
use rom_go_app.Navigation.Remote.Readings.{read_points}
use rom_go_app.Examples.{fl, net, live}

abbrev nothing : Json ℕ
nothing = object end

abbrev response : Raw
response = 123 ∷ 125 ∷ []

live-HasChannels : HasChannels live
unfolding new_client
live-HasChannels = record { fresh = λ k h. refl; given = λ id k e. cc }

live_inbox : live.svc_inbox live.next_channel ≡ none
unfolding new_client
live_inbox = refl

ids : call_id "/which_maps" 5 ≢ call_id "/which_maps" 6
unfolding sprint_int
ids = λ e. ground (arith, eq_iff (call_id "/which_maps" 5) (call_id "/which_maps" 6))

call_service-answer_example :
    let respond =
      λ (d : Client ℕ). (handle_service_response (call_id "/which_maps" 5) response d).0 in
    let request = call_service_msg (live.ns +++ "/which_maps") nothing (call_id "/which_maps" 5) in
    let answered = call_service net 5 respond "/which_maps" nothing live in
    let silent = call_service net 5 (λ d. d) "/which_maps" nothing live in
    (answered.1 ≡ ok response)
    × (answered.0.sent ≡ live.sent ++ request ∷ [])
    × (answered.0.svc_inbox live.next_channel ≡ none)
    × (silent.1 ≡ err (timed_out "/which_maps"))
    × (silent.0.sent ≡ live.sent ++ request ∷ [])
call_service-answer_example =
    call_service-answer net 5 "/which_maps" nothing response live refl refl refl live_inbox

call_service-forgets_example :
    get
      (call_id "/which_maps" 5)
      (call_service net 5 (λ d. d) "/which_maps" nothing live).0.svc_pending
    ≡ none
call_service-forgets_example = call_service-forgets net 5 "/which_maps" nothing (λ d. d) live

crossed_calls_example :
    let waiting =
      (begin_call net 6 "/which_maps" nothing (begin_call net 5 "/which_maps" nothing live).0).0 in
    let second = (handle_service_response (call_id "/which_maps" 6) [] waiting).0 in
    let both = (handle_service_response (call_id "/which_maps" 5) response second).0 in
    ((finish_call "/which_maps" (call_id "/which_maps" 5) live.next_channel both).1 ≡ ok response)
    × ((finish_call "/which_maps" (call_id "/which_maps" 6) (suc live.next_channel) both).1 ≡ ok [])
crossed_calls_example =
    crossed_calls net 5 6 "/which_maps" "/which_maps" nothing nothing response [] live
      live-HasChannels ids

same_id_calls_example :
    let id = call_id "/which_maps" 5 in
    let waiting =
      (begin_call net 5 "/which_maps" nothing (begin_call net 5 "/which_maps" nothing live).0).0 in
    let answered = (handle_service_response id response waiting).0 in
    let first_over = finish_call "/which_maps" id live.next_channel waiting in
    ((finish_call "/which_maps" id live.next_channel answered).1 ≡ err (timed_out "/which_maps"))
    × ((finish_call "/which_maps" id (suc live.next_channel) answered).1 ≡ ok response)
    × (first_over.1 ≡ err (timed_out "/which_maps"))
    × ((handle_service_response id response first_over.0).1 ≡ unknown)
same_id_calls_example =
    same_id_calls net 5 "/which_maps" nothing nothing response live live-HasChannels

abbrev patroller : Robot ℕ
patroller = record (new_robot fl "1" "/r1" "one" "10.0.0.1" 9090) {
  client = some live;
  patrol_points = new_point fl "gate" 1 2 3 ∷ new_point fl "dock" 4 5 6 ∷ [];
}

send_points-request_example :
    let request =
      call_service_msg
        (live.ns +++ service)
        (points_args patrol_point (points patrol_point patroller))
        (call_id service 5) in
    let respond = λ (d : Client ℕ). (handle_service_response (call_id service 5) response d).0 in
    let answered = send_points net 5 respond patrol_point patroller in
    let silent = send_points net 5 (λ d. d) patrol_point patroller in
    (read_points (list_name patrol_point) request ≡ some (points patrol_point patroller))
    × ((d : Client ℕ) × (answered ≡ (record patroller { client = some d }, none))
        × (d.sent ≡ live.sent ++ request ∷ []))
    × ((d : Client ℕ) × (silent
          ≡ (record patroller { client = some d }, some (call_failed (timed_out service))))
        × (d.sent ≡ live.sent ++ request ∷ []))
send_points-request_example =
    send_points-request net 5 patrol_point patroller live response refl refl refl refl live_inbox
