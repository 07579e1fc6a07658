-- ===== src/Navigation/Remote/Sends.antt =====
-- What a send of a robot's points hands to its connection.
use rom_go_app.Prelude.{
  ℕ, String, true, false, Option, none, some, List, [], ◌∷◌, ◌++◌, ◌≡◌, refl, ◌+++◌, arith,
  Option-cases, inl, inr,
}
use rom_go_app.Rosbridge.Types.{NavigationPoint}
use rom_go_app.Rosbridge.Codec.{Raw}
use rom_go_app.Rosbridge.Protocol.{
  Json, text, array, object, field, end, call_service_msg, waypoint_to_json,
}
use rom_go_app.Rosbridge.Client.{Client, Network, Result, timed_out, is_connected, is_some}
use rom_go_app.Rosbridge.Client.Services.{
  call_id, call_service, handle_service_response, send_nav_points, add_waypoints,
  add_service_points, add_patrol_points, add_path_points,
}
use rom_go_app.Rosbridge.Client.Services.Calls.{call_service-answer}
use rom_go_app.Robot.{Robot}
use rom_go_app.Navigation.Names.{Kind, waypoint, service_point, patrol_point, path_point, points}
use rom_go_app.Navigation.Remote.Readings.{read_points, read_items-waypoint_to_json}
use rom_go_app.Navigation.Remote.{
  RemoteError, robot_not_connected, call_failed, failure, remote, send_waypoints_to_robot,
  send_service_points_to_robot, send_patrol_points_to_robot, send_path_points_to_robot,
}

abbrev pub service : String
service = "/construct_yaml_and_bt"

-- The names that the requests have for the four lists.
abbrev pub request_name : Kind → String
request_name waypoint = "add_waypoints"
request_name service_point = "add_servicepoints"
request_name patrol_point = "add_patrolpoints"
request_name path_point = "add_pathpoints"

abbrev pub list_name : Kind → String
list_name waypoint = "waypoints"
list_name service_point = "servicepoints"
list_name patrol_point = "patrolpoints"
list_name path_point = "pathpoints"

module _ {F : Type 0} where
  abbrev pub send_points :
      Network F → ℕ → (Client F → Client F) → Kind → Robot F → Robot F × Option RemoteError
  send_points net now meanwhile waypoint = send_waypoints_to_robot net now meanwhile
  send_points net now meanwhile service_point = send_service_points_to_robot net now meanwhile
  send_points net now meanwhile patrol_point = send_patrol_points_to_robot net now meanwhile
  send_points net now meanwhile path_point = send_path_points_to_robot net now meanwhile

  -- The arguments of the request, from the points.
  abbrev pub points_args : Kind → List (NavigationPoint F) → Json F
  points_args k pts = object (
      field "request_string" (text (request_name k))
        (field (list_name k) (array (waypoint_to_json pts)) end))

  send_points-remote :
      (net : Network F) (now : ℕ) (meanwhile : Client F → Client F) (k : Kind) (r : Robot F)
      → send_points net now meanwhile k r
        ≡ remote (call_service net now meanwhile service (points_args k (points k r))) r
  unfolding send_waypoints_to_robot send_service_points_to_robot send_patrol_points_to_robot
      send_path_points_to_robot add_waypoints add_service_points add_patrol_points add_path_points
      send_nav_points
  send_points-remote net now meanwhile waypoint r = refl
  send_points-remote net now meanwhile service_point r = refl
  send_points-remote net now meanwhile patrol_point r = refl
  send_points-remote net now meanwhile path_point r = refl

  remote-connected :
      (call : Client F → Client F × Result Raw) (r : Robot F) (c : Client F)
      → r.client ≡ some c
      → c.connected ≡ true
      → remote call r ≡ (record r { client = some (call c).0 }, failure (call c).1)
  unfolding remote is_connected
  remote-connected call r c e live = rw (e, remote) (rw live refl)

  read_points-points :
      (k : Kind) (pts : List (NavigationPoint F)) (target id : String)
      → read_points (list_name k) (call_service_msg target (points_args k pts) id) ≡ some pts
  unfolding call_service_msg
  read_points-points waypoint pts target id = read_items-waypoint_to_json pts
  read_points-points service_point pts target id = read_items-waypoint_to_json pts
  read_points-points patrol_point pts target id = read_items-waypoint_to_json pts
  read_points-points path_point pts target id = read_items-waypoint_to_json pts

  -- A send of one of the four lists over a live connection, whose write succeeds and whose next
  -- channel is empty, hands the robot one request. Whoever looks up the points in the request, by
  -- the names of the fields, reads exactly those that the list holds, in order. The send succeeds if the response arrives during the wait and reports a timeout if nothing
  -- happens, and changes nothing of the robot but its client.
  pub send_points-request :
      (net : Network F) (now : ℕ) (k : Kind) (r : Robot F) (c : Client F) (raw : Raw)
      → r.client ≡ some c
      → c.connected ≡ true
      → is_some c.conn ≡ true
      → net c.sent
          (call_service_msg (c.ns +++ service) (points_args k (points k r)) (call_id service now))
        ≡ true
      → c.svc_inbox c.next_channel ≡ none
      → let request =
          call_service_msg (c.ns +++ service) (points_args k (points k r)) (call_id service now) in
        let respond = λ (d : Client F). (handle_service_response (call_id service now) raw d).0 in
        let answered = send_points net now respond k r in
        let silent = send_points net now (λ d. d) k r in
        (read_points (list_name k) request ≡ some (points k r))
        × ((d : Client F) × (answered ≡ (record r { client = some d }, none))
            × (d.sent ≡ c.sent ++ request ∷ []))
        × ((d : Client F) × (silent
              ≡ (record r { client = some d }, some (call_failed (timed_out service))))
            × (d.sent ≡ c.sent ++ request ∷ []))
  send_points-request net now k r c raw e live opened writes empty =
      let args = points_args k (points k r) in
      let respond = λ (d : Client F). (handle_service_response (call_id service now) raw d).0 in
      let (answer, sent, _, silence, sent') =
        call_service-answer net now service args raw c live opened writes empty in
      (
        read_points-points k (points k r) (c.ns +++ service) (call_id service now),
        (
          (call_service net now respond service args c).0,
          rw
              (
                send_points-remote net now respond k r,
                remote-connected (call_service net now respond service args) r c e live,
                answer,
              )
              refl,
          sent,
        ),
        (
          (call_service net now (λ d. d) service args c).0,
          rw
              (
                send_points-remote net now (λ d. d) k r,
                remote-connected (call_service net now (λ d. d) service args) r c e live,
                silence,
              )
              refl,
          sent',
        ),
      )

  remote-offline :
      (call : Client F → Client F × Result Raw) (r : Robot F)
      → ((c : Client F) → r.client ≡ some c → c.connected ≡ false)
      → remote call r ≡ (r, some robot_not_connected)
  unfolding remote is_connected
  remote-offline call r off = elim (Option-cases r.client) [
    | inl e ↦ ground (arith, e)
    | inr (c, e) ↦ ground (arith, e, off c e)
  ]

  -- Without a client, or with one that is not connected, a send fails and changes nothing.
  pub send_points-offline :
      (net : Network F) (now : ℕ) (meanwhile : Client F → Client F) (k : Kind) (r : Robot F)
      → ((c : Client F) → r.client ≡ some c → c.connected ≡ false)
      → send_points net now meanwhile k r ≡ (r, some robot_not_connected)
  send_points-offline net now meanwhile k r off =
      rw (send_points-remote net now meanwhile k r)
        (remote-offline (call_service net now meanwhile service (points_args k (points k r))) r off)
