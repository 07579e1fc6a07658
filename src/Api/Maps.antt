-- ===== src/Api/Maps.antt =====
-- handlers/map_api.go: the requests on maps and modes, all on the current robot. A body is the name
-- that `Decode` finds in it, `none` where it fails.
use rom_go_app.Prelude.{
  ℕ, String, Bool, true, false, not, Option, none, some, List, [], ◌∷◌, if◌then◌else◌, ◌=?◌,
}
use rom_go_app.Rosbridge.Codec.{Raw, Codec}
use rom_go_app.Rosbridge.Client.{Client, Network, Result, ok, err, is_connected}
use rom_go_app.Rosbridge.Client.Services.{
  save_map, select_map, request_navigation_mode, request_mapping_mode, request_remapping_mode,
}
use rom_go_app.Rosbridge.Client.Replies.{request_which_maps_names}
use rom_go_app.Robot.{Robot, get_map_list, set_map_list}
use rom_go_app.Manager.{Manager}
use rom_go_app.Api.{
  Status, success, method_not_allowed, bad_request, service_unavailable, internal_error,
}
use rom_go_app.Api.Current.{on_current}

abbrev pub is_empty : List String → Bool
is_empty [] = true
is_empty (_ ∷ _) = false

abbrev pub raw_status : Result Raw → Status
raw_status (ok _) = success
raw_status (err _) = internal_error

module _ {F : Type 0} where
  abbrev pub client_connected : Option (Client F) → Bool
  client_connected none = false
  client_connected (some c) = is_connected c

  -- The guard on the connection and one call.
  abbrev pub call_if_connected :
      (Client F → Client F × Result Raw) → Option (Client F) → Robot F → Robot F × Status
  call_if_connected call none r = (r, service_unavailable)
  call_if_connected call (some c) r =
      if is_connected c
      then (let (after, answer) = call c in (record r { client = some after }, raw_status answer))
      else (r, service_unavailable)

  unfoldable pub connected_call : (Client F → Client F × Result Raw) → Robot F → Robot F × Status
  connected_call call r = call_if_connected call r.client r

  unfoldable pub mode_request :
      (Client F → Client F × Result Raw) → String → Manager F → Manager F × Status
  mode_request call method m =
      if method =? "POST" then on_current (connected_call call) m else (m, method_not_allowed)

  abbrev pub named_call :
      (String → Client F → Client F × Result Raw) → Option String → Manager F → Manager F × Status
  named_call call none m = (m, bad_request)
  named_call call (some name) m =
      if name =? "" then (m, bad_request) else on_current (connected_call (call name)) m

  unfoldable pub named_map_request :
      (String → Client F → Client F × Result Raw)
      → String
      → Option String
      → Manager F
      → Manager F × Status
  named_map_request call method body m =
      if method =? "POST" then named_call call body m else (m, method_not_allowed)

  abbrev pub listed_maps : Option (Robot F) → Option (List String)
  listed_maps none = none
  listed_maps (some r) = some (get_map_list r)

module _ {F : Type 0} (codec : Codec F) (net : Network F) (now : ℕ)
    (meanwhile : Client F → Client F) where
  unfoldable pub save_map_request : String → Option String → Manager F → Manager F × Status
  unfolding named_map_request
  save_map_request = named_map_request (save_map net now meanwhile)

  unfoldable pub open_map_request : String → Option String → Manager F → Manager F × Status
  unfolding named_map_request
  open_map_request = named_map_request (select_map net now meanwhile)

  unfoldable pub set_navigation_mode : String → Manager F → Manager F × Status
  unfolding mode_request
  set_navigation_mode = mode_request (request_navigation_mode net now meanwhile)

  unfoldable pub set_mapping_mode : String → Manager F → Manager F × Status
  unfolding mode_request
  set_mapping_mode = mode_request (request_mapping_mode net now meanwhile)

  unfoldable pub set_remapping_mode : String → Manager F → Manager F × Status
  unfolding mode_request
  set_remapping_mode = mode_request (request_remapping_mode net now meanwhile)

  -- What becomes of the names that the robot answers with: `usable` is the test that they pass before
  -- they are stored.
  abbrev pub store_names : (List String → Bool) → Result (List String) → Robot F → Robot F
  store_names usable (err _) r = r
  store_names usable (ok names) r = if usable names then set_map_list names r else r

  abbrev pub fetch_names : (List String → Bool) → Option (Client F) → Robot F → Robot F
  fetch_names usable none r = r
  fetch_names usable (some c) r =
      if is_connected c
      then (let (after, answer) = request_which_maps_names codec net now meanwhile c in
          store_names usable answer (record r { client = some after }))
      else r

  -- The robot after `ListMaps` has looked for maps: it is asked only if its list is empty.
  unfoldable pub look_for_maps : Robot F → Robot F
  look_for_maps r = if is_empty (get_map_list r) then fetch_names (λ _. true) r.client r else r

  -- `OpenMapDialog` asks each time, and keeps the old list if the answer is empty.
  unfoldable pub refresh_maps : Robot F → Robot F
  refresh_maps r = fetch_names (λ names. not (is_empty names)) r.client r

  -- The maps of the answer are the list that the robot then has.
  unfoldable pub list_maps : String → Manager F → Manager F × Status
  list_maps method m =
      if method =? "GET"
      then on_current (λ r. (look_for_maps r, success)) m
      else (m, method_not_allowed)

  -- Without a robot the dialog is shown all the same.
  unfoldable pub open_map_dialog : Manager F → Manager F
  open_map_dialog m = (on_current (λ r. (refresh_maps r, success)) m).0
