-- ===== src/Rosbridge/Client/Services.antt =====
-- rosbridge/client.go: the service calls. A call registers a channel under its id, sends the
-- request and waits; what the other goroutines do to the client during the wait is an argument,
-- `meanwhile`, and a call whose channel is then still empty has timed out.
pub mod Calls
pub mod Channels
use rom_go_app.Prelude.{
  ℕ, suc, String, Option, none, some, List, if◌then◌else◌, ◌==◌, ◌+++◌, put, get, delete,
  sprint_int,
}
use rom_go_app.Rosbridge.Types.{NavigationPoint, WallObstacle}
use rom_go_app.Rosbridge.Protocol.{
  Json, Items, text, array, object, field, end, call_service_msg, which_maps_args, waypoint_to_json,
  wall_obstacles_to_json,
}
use rom_go_app.Rosbridge.Codec.{Raw}
use rom_go_app.Rosbridge.Client.{Client, Network, Result, ok, err, Error, timed_out, send}

-- `now` is the clock in milliseconds.
abbrev pub call_id : String → ℕ → String
call_id service now = "svc_" +++ service +++ "_" +++ sprint_int now

-- What the read loop does with a response: nothing, as its id is not pending; the send on the
-- channel; or it waits for ever, as the channel is full.
pub data Delivery : Type 0 where
  unknown delivered blocked : Delivery

module _ {F : Type 0} where
  -- The deferred `delete` of `CallService`.
  unfoldable pub forget : String → Client F → Client F
  forget id c = record c { svc_pending = delete id c.svc_pending }

  abbrev pub set_inbox : ℕ → Option Raw → Client F → Client F
  set_inbox ch r c = record c { svc_inbox = λ k. if k == ch then r else c.svc_inbox k }

  unfoldable pub begin_call : Network F → ℕ → String → Json F → Client F → Client F × Option Error
  begin_call net now service args c =
      let id = call_id service now in
      let registered = record c {
        svc_pending = put id c.next_channel c.svc_pending;
        next_channel = suc c.next_channel;
      } in
      send net registered (call_service_msg (c.ns +++ service) args id)

  -- The `select` on the channel `ch` and the timer, and the deferred `delete`.
  unfoldable pub finish_call : String → String → ℕ → Client F → Client F × Result Raw
  unfolding forget
  finish_call service id ch c = elim (c.svc_inbox ch) [
    | none ↦ (forget id c, err (timed_out service))
    | some raw ↦ (forget id (set_inbox ch none c), ok raw)
  ]

  unfoldable pub handle_service_response : String → Raw → Client F → Client F × Delivery
  handle_service_response id raw c = elim (get id c.svc_pending) [
    | none ↦ (c, unknown)
    | some ch ↦ elim (c.svc_inbox ch) [
      | none ↦ (set_inbox ch (some raw) c, delivered)
      | some _ ↦ (c, blocked)
    ]
  ]

  unfoldable pub call_service :
      Network F → ℕ → (Client F → Client F) → String → Json F → Client F → Client F × Result Raw
  call_service net now meanwhile service args c =
      let (begun, failure) = begin_call net now service args c in
      elim failure [
        | some e ↦ (forget (call_id service now) begun, err e)
        | none ↦ finish_call service (call_id service now) c.next_channel (meanwhile begun)
      ]

-- The requests, each one call of `CallService`.
module _ {F : Type 0} (net : Network F) (now : ℕ) (meanwhile : Client F → Client F) where
  abbrev pub which_maps_call : String → String → String → Client F → Client F × Result Raw
  which_maps_call request save select =
      call_service net now meanwhile "/which_maps" (which_maps_args request save select "")

  unfoldable pub request_navigation_mode : Client F → Client F × Result Raw
  request_navigation_mode = which_maps_call "navi" "" ""

  unfoldable pub request_mapping_mode : Client F → Client F × Result Raw
  request_mapping_mode = which_maps_call "mapping" "" ""

  unfoldable pub request_remapping_mode : Client F → Client F × Result Raw
  request_remapping_mode = which_maps_call "remapping" "" ""

  unfoldable pub save_map : String → Client F → Client F × Result Raw
  save_map name = which_maps_call "save_map" name ""

  unfoldable pub select_map : String → Client F → Client F × Result Raw
  select_map name = which_maps_call "select_map" "" name

  abbrev pub bt_call : Json F → Client F → Client F × Result Raw
  bt_call args = call_service net now meanwhile "/construct_yaml_and_bt" args

  abbrev pub bt_request : String → Client F → Client F × Result Raw
  bt_request request_string = bt_call (object (field "request_string" (text request_string) end))

  unfoldable pub send_nav_points : String → String → Items F → Client F → Client F × Result Raw
  send_nav_points request_string points_key points =
      bt_call (
        object (field "request_string" (text request_string) (field points_key (array points) end)))

  unfoldable pub add_waypoints : List (NavigationPoint F) → Client F → Client F × Result Raw
  unfolding send_nav_points
  add_waypoints pts = send_nav_points "add_waypoints" "waypoints" (waypoint_to_json pts)

  unfoldable pub add_service_points : List (NavigationPoint F) → Client F → Client F × Result Raw
  unfolding send_nav_points
  add_service_points pts =
      send_nav_points "add_servicepoints" "servicepoints" (waypoint_to_json pts)

  unfoldable pub add_patrol_points : List (NavigationPoint F) → Client F → Client F × Result Raw
  unfolding send_nav_points
  add_patrol_points pts = send_nav_points "add_patrolpoints" "patrolpoints" (waypoint_to_json pts)

  unfoldable pub add_path_points : List (NavigationPoint F) → Client F → Client F × Result Raw
  unfolding send_nav_points
  add_path_points pts = send_nav_points "add_pathpoints" "pathpoints" (waypoint_to_json pts)

  unfoldable pub save_wall_obstacles : List (WallObstacle F) → Client F → Client F × Result Raw
  unfolding send_nav_points
  save_wall_obstacles walls =
      send_nav_points "save_obstacles" "obstacles" (wall_obstacles_to_json walls)

  unfoldable pub clear_wall_obstacles : Client F → Client F × Result Raw
  clear_wall_obstacles = bt_request "clear_obstacles"

  unfoldable pub get_waypoints : Client F → Client F × Result Raw
  get_waypoints = bt_request "get_waypoints"

  unfoldable pub get_service_points : Client F → Client F × Result Raw
  get_service_points = bt_request "get_servicepoints"

  unfoldable pub get_patrol_points : Client F → Client F × Result Raw
  get_patrol_points = bt_request "get_patrolpoints"

  unfoldable pub get_path_points : Client F → Client F × Result Raw
  get_path_points = bt_request "get_pathpoints"

  unfoldable pub go_all_waypoints : Client F → Client F × Result Raw
  go_all_waypoints = bt_request "go_all_waypoints"

  unfoldable pub go_all_service_points : Client F → Client F × Result Raw
  go_all_service_points = bt_request "go_all_servicepoints"

  unfoldable pub go_all_patrol_points : Client F → Client F × Result Raw
  go_all_patrol_points = bt_request "go_all_patrolpoints"

  unfoldable pub go_all_path_points : Client F → Client F × Result Raw
  go_all_path_points = bt_request "go_all_pathpoints"
