-- ===== src/Api.antt =====
-- handlers/robot_api.go: the requests on robots. A request is its decoded form values, and an answer
-- its status; the pages and the bodies of the answers are left out.
pub mod Requests
pub mod Current
pub mod Points
pub mod Maps
pub mod Lists
pub mod Rows
use rom_go_app.Prelude.{
  ℕ, String, Bool, true, false, ◌&&◌, ◌||◌, not, Option, none, some, Float64, if◌then◌else◌, ◌=?◌,
}
use rom_go_app.Rosbridge.Types.{HandshakeResponse, WhichTaskResponse}
use rom_go_app.Rosbridge.Codec.{Codec}
use rom_go_app.Rosbridge.Client.{Client, Dialer, Network, Error, Result, ok, err, connect}
use rom_go_app.Rosbridge.Client.Replies.{
  handshake, request_task, request_power_off, request_reboot, request_settings_save,
}
use rom_go_app.Robot.{Robot, with_client, set_radius}
use rom_go_app.Manager.{
  Manager, ManagerError, add_robot, remove_robot, switch_robot, get_robot, get_current_robot_id,
  update_robot,
}

pub data Status : Type 0 where
  success method_not_allowed bad_request conflict not_found service_unavailable internal_error :
      Status

pub record AddRequest : Type 0 where
  pub method : String
  pub ns : String
  pub name : String
  pub ip : String
  pub port_text : String

-- The form values of the settings, parsed by `strconv.ParseFloat`: `none` for one that is empty or
-- is no number.
pub record Settings (F : Type 0) : Type 0 where
  pub linear_vel_ratio : Option F
  pub angular_vel_ratio : Option F
  pub radius : Option F

pub data Request (F : Type 0) : Type 0 where
  adds : (String → Option ℕ) → AddRequest → Request F
  settles : String → Request F
  removes : Bool → ℕ → String → String → Request F
  switches : String → Request F
  sets : String → Settings F → Request F
  tasks : String → String → String → Request F
  powers_off : String → Request F
  reboots : String → Request F

abbrev pub or_kept : {F : Type 0} → Option F → F → F
or_kept none old = old
or_kept (some new) old = new

-- `atoi` is `strconv.Atoi`.
unfoldable pub port_of : (String → Option ℕ) → String → Option ℕ
port_of atoi port_text = if port_text =? "" then some 9090 else atoi port_text

abbrev pub added_status : Option ManagerError → Status
added_status none = success
added_status (some _) = conflict

abbrev pub found_status : Option ManagerError → Status
found_status none = success
found_status (some _) = not_found

module _ {F : Type 0} where
  unfoldable pub id_or_current : String → Manager F → String
  id_or_current id m = if id =? "" then get_current_robot_id m else id

  unfoldable pub add_robot_at :
      Float64 F → String → String → String → Option ℕ → Manager F → Manager F × Status
  add_robot_at fl ns name ip none m = (m, bad_request)
  add_robot_at fl ns name ip (some port) m =
      let (after, outcome) = add_robot fl ns name ip port m in (after, added_status outcome.1)

  -- `AddRobot` up to the start of its goroutine.
  unfoldable pub add_robot_request :
      Float64 F → (String → Option ℕ) → AddRequest → Manager F → Manager F × Status
  add_robot_request fl atoi req m =
      if not (req.method =? "POST")
      then (m, method_not_allowed)
      else if (req.ns =? "") || (req.name =? "") || (req.ip =? "")
      then (m, bad_request)
      else add_robot_at fl req.ns req.name req.ip (port_of atoi req.port_text) m

  unfoldable pub remove_robot_request :
      Network F → Bool → ℕ → String → String → Manager F → Manager F × Status
  remove_robot_request net stop_taken choice method id m =
      if not (method =? "DELETE")
      then (m, method_not_allowed)
      else if id =? ""
      then (m, bad_request)
      else (let (after, failure) = remove_robot net stop_taken choice id m in
          (after, found_status failure))

  unfoldable pub switch_robot_request : String → Manager F → Manager F × Status
  switch_robot_request id m =
      let (after, failure) = switch_robot id m in (after, found_status failure)

module _ {F : Type 0} (fl : Float64 F) (codec : Codec F) (net : Network F) (now : ℕ)
    (meanwhile : Client F → Client F) where
  abbrev pub learn_radius : Result (HandshakeResponse F) → Robot F → Robot F
  learn_radius (err _) r = r
  learn_radius (ok hs) r =
      if fl.gtb hs.robot_diameter fl.zero_float
      then set_radius (fl.div hs.robot_diameter fl.two_float) r
      else r

  abbrev pub shake_hands : Client F × Option Error → Robot F → Robot F
  shake_hands (c, some _) r = record r { client = some c }
  shake_hands (c, none) r =
      let (after, answer) = handshake codec net now meanwhile c in
      learn_radius answer (record r { client = some after })

  -- The goroutine of `AddRobot`: connect, shake hands, and take over the robot's diameter.
  unfoldable pub settle : Dialer → Robot F → Robot F
  settle dial r = elim r.client [ none ↦ r | some c ↦ shake_hands (connect dial c) r ]

  -- The new settings, which are sent on to a robot that is connected; `to_text` marshals them.
  abbrev pub with_settings : Settings F → Robot F → Robot F
  with_settings s r = record r {
    linear_vel_ratio = or_kept s.linear_vel_ratio r.linear_vel_ratio;
    angular_vel_ratio = or_kept s.angular_vel_ratio r.angular_vel_ratio;
    radius = or_kept s.radius r.radius;
  }

  abbrev pub send_settings : (F → F → F → String) → Robot F → Robot F
  send_settings to_text r =
      if r.connected
      then with_client
          (λ c.
            (request_settings_save codec net now meanwhile
              (to_text r.linear_vel_ratio r.angular_vel_ratio r.radius) c).0)
          r
      else r

  unfoldable pub apply_settings : (F → F → F → String) → Settings F → Robot F → Robot F
  apply_settings to_text s r = send_settings to_text (with_settings s r)

  abbrev pub status_if_found : Option (Robot F) → Status
  status_if_found none = not_found
  status_if_found (some _) = success

  unfoldable pub update_settings :
      (F → F → F → String) → String → Settings F → Manager F → Manager F × Status
  update_settings to_text id s m =
      let target = id_or_current id m in
      (update_robot target (apply_settings to_text s) m, status_if_found (get_robot target m))

  abbrev pub call_status : Result WhichTaskResponse → Status
  call_status (ok _) = success
  call_status (err _) = internal_error

  abbrev pub client_status :
      (Client F → Client F × Result WhichTaskResponse) → Option (Client F) → Status
  client_status call none = not_found
  client_status call (some c) = call_status (call c).1

  abbrev pub robot_status :
      (Client F → Client F × Result WhichTaskResponse) → Option (Robot F) → Status
  robot_status call none = not_found
  robot_status call (some r) = client_status call r.client

  -- The common body of the three task requests.
  unfoldable pub task_request :
      (Client F → Client F × Result WhichTaskResponse) → String → Manager F → Manager F × Status
  task_request call id m =
      let target = id_or_current id m in
      (
        update_robot target (with_client (λ c. (call c).0)) m,
        robot_status call (get_robot target m),
      )

  unfoldable pub request_task_of : String → String → String → Manager F → Manager F × Status
  unfolding task_request
  request_task_of task settings = task_request (request_task codec net now meanwhile task settings)

  unfoldable pub power_off : String → Manager F → Manager F × Status
  unfolding task_request
  power_off = task_request (request_power_off codec net now meanwhile)

  unfoldable pub reboot : String → Manager F → Manager F × Status
  unfolding task_request
  reboot = task_request (request_reboot codec net now meanwhile)

  -- The requests that change the registry, and the goroutine that an addition starts.
  unfoldable pub serve : Dialer → (F → F → F → String) → Request F → Manager F → Manager F
  serve dial to_text (adds atoi req) m = (add_robot_request fl atoi req m).0
  serve dial to_text (settles id) m = update_robot id (settle dial) m
  serve dial to_text (removes stop_taken choice method id) m =
      (remove_robot_request net stop_taken choice method id m).0
  serve dial to_text (switches id) m = (switch_robot_request id m).0
  serve dial to_text (sets id s) m = (update_settings to_text id s m).0
  serve dial to_text (tasks task settings id) m = (request_task_of task settings id m).0
  serve dial to_text (powers_off id) m = (power_off id m).0
  serve dial to_text (reboots id) m = (reboot id m).0
