-- ===== src/Server/Answers.antt =====
-- main.go and the forms of handlers/: the answer of each handler to a request.
use rom_go_app.Prelude.{ℕ, String, Bool, Option, none, some, List, Float64, if◌then◌else◌, ◌=?◌}
use rom_go_app.Rosbridge.Types.{TwistData}
use rom_go_app.Rosbridge.Codec.{Codec}
use rom_go_app.Rosbridge.Client.{Client, Network, Dialer}
use rom_go_app.Robot.{Robot}
use rom_go_app.Manager.{Manager, get_current_robot, get_current_robot_id, get_all_robots}
use rom_go_app.Browser.{CommandCodec}
use rom_go_app.Api.{
  Status, success, method_not_allowed, not_found, AddRequest, Settings, add_robot_request,
  remove_robot_request, switch_robot_request, update_settings, request_task_of, power_off, reboot,
}
use rom_go_app.Api.Points.{
  PointForm, ImportPayload, PointLists, add_navigation_point, list_navigation_points,
  nav_points_partial, send_navigation_points, go_all_points, clear_navigation_points,
  request_nav_points_from_robot, import_nav_points, delete_nav_point,
}
use rom_go_app.Api.Maps.{
  list_maps, listed_maps, save_map_request, open_map_request, open_map_dialog, set_navigation_mode,
  set_mapping_mode, set_remapping_mode,
}
use rom_go_app.Api.Lists.{
  RobotRow, RobotReport, list_robots, robot_status, velocity_history_request, settings_partial,
}
use rom_go_app.Server.Routes.{
  static_files, index_page, robots, robots_switch, robots_status, robots_history, robots_settings,
  robots_task, robots_power_off, robots_reboot, maps_list, maps_save, maps_open, mode_navigation,
  mode_mapping, mode_remapping, nav_add, nav_list, nav_send, nav_go, nav_clear, nav_fetch,
  nav_import, nav_delete, speech_status, speech_transcribe, partial_robots, partial_settings,
  partial_nav_points, dialog_add_robot, dialog_save_map, dialog_open_map, dialog_confirm,
  dialog_add_nav_point, web_socket, Handler, route,
}

-- What the outside world decides while one request or event is handled.
pub record Env (F : Type 0) : Type 0 where
  pub codec : Codec F
  pub commands : CommandCodec F
  pub net : Network F
  pub dial : Dialer
  pub now : ℕ
  pub meanwhile : Client F → Client F
  pub stop_taken : Bool
  pub choice : ℕ
  -- `strconv.Atoi`, and `strconv.ParseFloat` with its error dropped and heeded
  pub atoi : String → Option ℕ
  pub float_value : String → F
  pub float_checked : String → Option F
  -- the marshalled settings
  pub settings_text : F → F → F → String

-- A request: `form` is `FormValue` and `query` is `URL.Query().Get`, "" where a name is missing; the
-- bodies are what their decoders return.
pub record HttpRequest (F : Type 0) : Type 0 where
  pub method : String
  pub path : String
  pub form : String → String
  pub query : String → String
  pub map_name : Option String
  pub payload : Option (ImportPayload F)

-- The body of an answer, or its status alone; `outside` is an answer that the model leaves out.
pub data Answer (F : Type 0) : Type 0 where
  status : Status → Answer F
  robot_rows : List RobotRow → Answer F
  report : RobotReport F → Answer F
  history : List (TwistData F) → Answer F
  point_lists : PointLists F → Answer F
  points_page : Option ((ℕ × ℕ × ℕ × ℕ × ℕ) × PointLists F) → Answer F
  map_names : Option (List String) → Answer F
  settings_page : Option (Robot F) → Answer F
  robots_page : List (Robot F) → String → Answer F
  dialog : String → Answer F
  outside : Answer F

module _ {F : Type 0} where
  abbrev pub coded : Manager F × Status → Manager F × Answer F
  coded (m, s) = (m, status s)

  abbrev pub or_not_found : {A : Type 0} → (A → Answer F) → Option A → Answer F
  or_not_found answer none = status not_found
  or_not_found answer (some a) = answer a

  -- The page or the panel of all robots.
  abbrev pub robot_list : Manager F → Answer F
  robot_list m = robots_page (get_all_robots m) (get_current_robot_id m)

  abbrev pub show_index : HttpRequest F → Manager F → Manager F × Answer F
  show_index req m = if req.path =? "/" then (m, robot_list m) else (m, status not_found)

  abbrev pub maps_answer : Manager F × Status → Manager F × Answer F
  maps_answer (m, success) = (m, map_names (listed_maps (get_current_robot m)))
  maps_answer (m, s) = (m, status s)

module _ {F : Type 0} (fl : Float64 F) (env : Env F) where
  open env use {
    codec, commands, net, now, meanwhile, stop_taken, choice, atoi, float_value, float_checked,
  }

  abbrev pub add_form : HttpRequest F → AddRequest
  add_form req = record {
    method = req.method;
    ns = req.form "namespace";
    name = req.form "name";
    ip = req.form "ip";
    port_text = req.form "port";
  }

  abbrev pub checked_value : String → Option F
  checked_value s = if s =? "" then none else float_checked s

  abbrev pub settings_form : HttpRequest F → Settings F
  settings_form req = record {
    linear_vel_ratio = checked_value (req.form "linear_vel_ratio");
    angular_vel_ratio = checked_value (req.form "angular_vel_ratio");
    radius = checked_value (req.form "radius");
  }

  abbrev pub point_form : HttpRequest F → PointForm F
  point_form req = record {
    type_name = req.form "type";
    name = req.form "name";
    x = float_value (req.form "world_x");
    y = float_value (req.form "world_y");
    theta = float_value (req.form "theta");
    x2 = float_value (req.form "world_x2");
    y2 = float_value (req.form "world_y2");
  }

  -- The handler of "/api/robots".
  unfoldable pub robots_by_method : HttpRequest F → Manager F → Manager F × Answer F
  robots_by_method req m =
      if req.method =? "GET"
      then (m, robot_rows (list_robots fl m))
      else if req.method =? "POST"
      then coded (add_robot_request fl atoi (add_form req) m)
      else if req.method =? "DELETE"
      then coded (remove_robot_request net stop_taken choice req.method (req.query "id") m)
      else (m, status method_not_allowed)

  abbrev pub switch_id : HttpRequest F → String
  switch_id req = if req.form "id" =? "" then req.query "id" else req.form "id"

  unfoldable pub answer : Handler → HttpRequest F → Manager F → Manager F × Answer F
  answer static_files req m = (m, outside)
  answer index_page req m = show_index req m
  answer robots req m = robots_by_method req m
  answer robots_switch req m = coded (switch_robot_request (switch_id req) m)
  answer robots_status req m = (m, or_not_found report (robot_status fl (req.query "id") m))
  answer robots_history req m =
      (m, or_not_found history (velocity_history_request (req.query "id") m))
  answer robots_settings req m = coded (
      update_settings fl codec net now meanwhile env.settings_text (req.form "id")
        (settings_form req) m)
  answer robots_task req m = coded (
      request_task_of fl codec net now meanwhile (req.form "task") (req.form "settings")
        (req.form "id") m)
  answer robots_power_off req m = coded (power_off fl codec net now meanwhile (req.form "id") m)
  answer robots_reboot req m = coded (reboot fl codec net now meanwhile (req.form "id") m)
  answer maps_list req m = maps_answer (list_maps codec net now meanwhile req.method m)
  answer maps_save req m =
      coded (save_map_request codec net now meanwhile req.method req.map_name m)
  answer maps_open req m =
      coded (open_map_request codec net now meanwhile req.method req.map_name m)
  answer mode_navigation req m = coded (set_navigation_mode codec net now meanwhile req.method m)
  answer mode_mapping req m = coded (set_mapping_mode codec net now meanwhile req.method m)
  answer mode_remapping req m = coded (set_remapping_mode codec net now meanwhile req.method m)
  answer nav_add req m = coded (add_navigation_point fl (point_form req) m)
  answer nav_list req m = (m, point_lists (list_navigation_points fl (req.query "type") m))
  answer nav_send req m = coded (send_navigation_points net now meanwhile (req.form "type") m)
  answer nav_go req m = coded (go_all_points net now meanwhile (req.form "type") m)
  answer nav_clear req m = coded (clear_navigation_points net now meanwhile (req.form "type") m)
  answer nav_fetch req m =
      coded (request_nav_points_from_robot net now meanwhile (req.form "type") m)
  answer nav_import req m = coded (import_nav_points req.payload m)
  answer nav_delete req m = coded (delete_nav_point (req.query "type") (req.query "name") m)
  answer speech_status req m = (m, outside)
  answer speech_transcribe req m = (m, outside)
  answer partial_robots req m = (m, robot_list m)
  answer partial_settings req m = (m, settings_page (settings_partial fl m))
  answer partial_nav_points req m = (m, points_page (nav_points_partial fl m))
  answer dialog_add_robot req m = (m, dialog "add_robot.html")
  answer dialog_save_map req m = (m, dialog "save_map.html")
  answer dialog_open_map req m =
      let after = open_map_dialog codec net now meanwhile m in
      (after, map_names (listed_maps (get_current_robot after)))
  answer dialog_confirm req m = (m, dialog "confirm.html")
  answer dialog_add_nav_point req m = (m, dialog "add_nav_point.html")
  answer web_socket req m = (m, outside)

  unfoldable pub respond : HttpRequest F → Manager F → Manager F × Answer F
  respond req m = answer (route req.path) req m
