-- ===== src/Server/Requests.antt =====
-- Every request to the server is one change of the registry.
use rom_go_app.Prelude.{if_holds, ℕ, String, Bool, not, ◌||◌, Option, none, some, Float64, ◌=?◌}
use rom_go_app.Rosbridge.Client.{Client, Network, Result}
use rom_go_app.Rosbridge.Codec.{Raw}
use rom_go_app.Manager.{Manager}
use rom_go_app.Manager.Evolution.{adds, removes, switches}
use rom_go_app.Api.{
  Status, success, method_not_allowed, bad_request, conflict, not_found, service_unavailable,
  internal_error, AddRequest, add_robot_at, add_robot_request, remove_robot_request,
  switch_robot_request, update_settings, task_request, request_task_of, power_off, reboot, port_of,
}
use rom_go_app.Api.Points.{
  point_type, send_typed, go_typed, fetch_typed, import_payload, ImportPayload,
  add_navigation_point, send_navigation_points, go_all_points, clear_navigation_points,
  request_nav_points_from_robot, import_nav_points, delete_nav_point,
}
use rom_go_app.Api.Maps.{
  connected_call, mode_request, named_call, named_map_request, list_maps, open_map_dialog,
  save_map_request, open_map_request, set_navigation_mode, set_mapping_mode, set_remapping_mode,
}
use rom_go_app.Server.{
  Env, HttpRequest, Handler, static_files, index_page, robots, robots_switch, robots_status,
  robots_history, robots_settings, robots_task, robots_power_off, robots_reboot, maps_list,
  maps_save, maps_open, mode_navigation, mode_mapping, mode_remapping, nav_add, nav_list, nav_send,
  nav_go, nav_clear, nav_fetch, nav_import, nav_delete, speech_status, speech_transcribe,
  partial_robots, partial_settings, partial_nav_points, dialog_add_robot, dialog_save_map,
  dialog_open_map, dialog_confirm, dialog_add_nav_point, web_socket, robots_by_method, answer,
  maps_answer, add_form, point_form,
}
use rom_go_app.Server.Kept.{Watch, Allows}
use rom_go_app.Server.Robots.{connected_call-Kept}
use rom_go_app.Rosbridge.Client.Lifecycle.Calls.{
  Called, request_task-Moves, request_power_off-Moves, request_reboot-Moves, save_map-Moves,
  select_map-Moves, request_navigation_mode-Moves, request_mapping_mode-Moves,
  request_remapping_mode-Moves,
}
use rom_go_app.Server.Edits.{apply_settings-Kept, refresh_maps-Kept, look_for_maps-Kept}
use rom_go_app.Server.Points.{delete_point-Kept, with_a_client-Kept, add_typed_point-Kept}
use rom_go_app.Server.Transfers.{clear_typed-Kept, fetch_typed-Kept, go_typed-Kept, send_typed-Kept}
use rom_go_app.Server.Changes.{
  Checked, import_payload-Keeps, Changes, stays, update_robot-Changes, told-Changes,
  current-Changes, on_current-Changes,
}

module _ {F : Type 0} (fl : Float64 F) (watch : Watch) where
  abbrev Reaches : {A : Type 0} → Manager F → Manager F × A → Type 0
  Reaches m w = Changes fl watch m w.0

  add_robot_at-Changes :
      (ns name ip : String) (port : Option ℕ) (m : Manager F)
      → Changes fl watch m (add_robot_at fl ns name ip port m).0
  unfolding add_robot_at
  add_robot_at-Changes ns name ip none m = stays fl watch m
  add_robot_at-Changes ns name ip (some port) m = adds ns name ip port

  add_robot_request-Changes :
      (atoi : String → Option ℕ) (req : AddRequest) (m : Manager F)
      → Changes fl watch m (add_robot_request fl atoi req m).0
  unfolding add_robot_request
  add_robot_request-Changes atoi req m =
      if_holds (Reaches m) (not (req.method =? "POST")) (stays fl watch m) (
        if_holds (Reaches m) ((req.ns =? "") || (req.name =? "") || (req.ip =? ""))
          (stays fl watch m)
          (add_robot_at-Changes req.ns req.name req.ip (port_of atoi req.port_text) m))

  remove_robot_request-Changes :
      (net : Network F) (stop_taken : Bool) (choice : ℕ) (method id : String) (m : Manager F)
      → Changes fl watch m (remove_robot_request net stop_taken choice method id m).0
  unfolding remove_robot_request
  remove_robot_request-Changes net stop_taken choice method id m =
      if_holds (Reaches m) (not (method =? "DELETE")) (stays fl watch m)
        (if_holds (Reaches m) (id =? "") (stays fl watch m) (removes net stop_taken choice id))

  mode_request-Changes :
      (meanwhile : Client F → Client F) (call : Client F → Client F × Result Raw) (method : String)
      (m : Manager F)
      → Allows fl watch meanwhile
      → Called fl meanwhile call
      → Changes fl watch m (mode_request call method m).0
  unfolding mode_request
  mode_request-Changes meanwhile call method m a k =
      if_holds (Reaches m) (method =? "POST")
        (on_current-Changes fl watch meanwhile (connected_call call) m a
          (connected_call-Kept fl meanwhile call k))
        (stays fl watch m)

  named_call-Changes :
      (meanwhile : Client F → Client F) (call : String → Client F → Client F × Result Raw)
      (body : Option String) (m : Manager F)
      → Allows fl watch meanwhile
      → ((name : String) → Called fl meanwhile (call name))
      → Changes fl watch m (named_call call body m).0
  named_call-Changes meanwhile call none m a k = stays fl watch m
  named_call-Changes meanwhile call (some name) m a k =
      if_holds (Reaches m) (name =? "") (stays fl watch m) (
        on_current-Changes fl watch meanwhile _ m a
          (connected_call-Kept fl meanwhile (call name) (k name)))

  named_map_request-Changes :
      (meanwhile : Client F → Client F) (call : String → Client F → Client F × Result Raw)
      (method : String) (body : Option String) (m : Manager F)
      → Allows fl watch meanwhile
      → ((name : String) → Called fl meanwhile (call name))
      → Changes fl watch m (named_map_request call method body m).0
  unfolding named_map_request
  named_map_request-Changes meanwhile call method body m a k =
      if_holds (Reaches m) (method =? "POST") (named_call-Changes meanwhile call body m a k)
        (stays fl watch m)

  import_nav_points-Changes :
      (body : Option (ImportPayload F)) (m : Manager F)
      → Checked watch nav_import
      → Changes fl watch m (import_nav_points body m).0
  unfolding import_nav_points
  import_nav_points-Changes body m c =
      current-Changes fl watch (import_payload body) m (import_payload-Keeps fl watch body c)

  list_maps-Changes :
      (env : Env F) (method : String) (m : Manager F)
      → Allows fl watch env.meanwhile
      → Changes fl watch m (list_maps env.codec env.net env.now env.meanwhile method m).0
  unfolding list_maps
  list_maps-Changes env method m a =
      if_holds (Reaches m) (method =? "GET")
        (on_current-Changes fl watch env.meanwhile _ m a
          (look_for_maps-Kept fl env.codec env.net env.now env.meanwhile))
        (stays fl watch m)

  maps_answer-Changes :
      (m : Manager F) (w : Manager F × Status)
      → Changes fl watch m w.0
      → Changes fl watch m (maps_answer w).0
  maps_answer-Changes m (w, success) c = c
  maps_answer-Changes m (w, method_not_allowed) c = c
  maps_answer-Changes m (w, bad_request) c = c
  maps_answer-Changes m (w, conflict) c = c
  maps_answer-Changes m (w, not_found) c = c
  maps_answer-Changes m (w, service_unavailable) c = c
  maps_answer-Changes m (w, internal_error) c = c

  robots_by_method-Changes :
      (env : Env F) (req : HttpRequest F) (m : Manager F)
      → Changes fl watch m (robots_by_method fl env req m).0
  unfolding robots_by_method
  robots_by_method-Changes env req m =
      if_holds (Reaches m) (req.method =? "GET") (stays fl watch m) (
        if_holds (Reaches m) (req.method =? "POST")
          (add_robot_request-Changes env.atoi (add_form fl env req) m)
          (if_holds (Reaches m) (req.method =? "DELETE")
            (remove_robot_request-Changes env.net env.stop_taken env.choice req.method
              (req.query "id") m)
            (stays fl watch m)))

  pub answer-Changes :
      (env : Env F) (h : Handler) (req : HttpRequest F) (m : Manager F)
      → Checked watch h
      → Allows fl watch env.meanwhile
      → Changes fl watch m (answer fl env h req m).0
  unfolding answer switch_robot_request update_settings request_task_of power_off reboot
      task_request add_navigation_point send_navigation_points go_all_points clear_navigation_points
      request_nav_points_from_robot delete_nav_point open_map_dialog save_map_request
      open_map_request set_navigation_mode set_mapping_mode set_remapping_mode
  answer-Changes env static_files req m c a = stays fl watch m
  answer-Changes env index_page req m c a =
      if_holds (Reaches m) (req.path =? "/") (stays fl watch m) (stays fl watch m)
  answer-Changes env robots req m c a = robots_by_method-Changes env req m
  answer-Changes env robots_switch req m c a = switches _
  answer-Changes env robots_status req m c a = stays fl watch m
  answer-Changes env robots_history req m c a = stays fl watch m
  answer-Changes env robots_settings req m c a =
      update_robot-Changes fl watch env.meanwhile _ _ m a
        (apply_settings-Kept fl env.codec env.net env.now env.meanwhile env.settings_text _)
  answer-Changes env robots_task req m c a = told-Changes fl watch env.meanwhile _ _ m a (
      request_task-Moves fl env.codec env.net env.now env.meanwhile (req.form "task")
        (req.form "settings"))
  answer-Changes env robots_power_off req m c a =
      told-Changes fl watch env.meanwhile _ _ m a
        (request_power_off-Moves fl env.codec env.net env.now env.meanwhile)
  answer-Changes env robots_reboot req m c a =
      told-Changes fl watch env.meanwhile _ _ m a
        (request_reboot-Moves fl env.codec env.net env.now env.meanwhile)
  answer-Changes env maps_list req m c a =
      maps_answer-Changes m _ (list_maps-Changes env req.method m a)
  answer-Changes env maps_save req m c a =
      named_map_request-Changes env.meanwhile _ req.method req.map_name m a
        (save_map-Moves fl env.net env.now env.meanwhile)
  answer-Changes env maps_open req m c a =
      named_map_request-Changes env.meanwhile _ req.method req.map_name m a
        (select_map-Moves fl env.net env.now env.meanwhile)
  answer-Changes env mode_navigation req m c a =
      mode_request-Changes env.meanwhile _ req.method m a
        (request_navigation_mode-Moves fl env.net env.now env.meanwhile)
  answer-Changes env mode_mapping req m c a =
      mode_request-Changes env.meanwhile _ req.method m a
        (request_mapping_mode-Moves fl env.net env.now env.meanwhile)
  answer-Changes env mode_remapping req m c a =
      mode_request-Changes env.meanwhile _ req.method m a
        (request_remapping_mode-Moves fl env.net env.now env.meanwhile)
  answer-Changes env nav_add req m c a =
      on_current-Changes fl watch env.meanwhile _ m a
        (add_typed_point-Kept fl env.meanwhile _ (point_form fl env req))
  answer-Changes env nav_list req m c a = stays fl watch m
  answer-Changes env nav_send req m c a = on_current-Changes fl watch env.meanwhile _ m a (
      with_a_client-Kept fl env.meanwhile
        (send_typed env.net env.now env.meanwhile (point_type (req.form "type")))
        (send_typed-Kept fl env.net env.now env.meanwhile (point_type (req.form "type"))))
  answer-Changes env nav_go req m c a = on_current-Changes fl watch env.meanwhile _ m a (
      with_a_client-Kept fl env.meanwhile
        (go_typed env.net env.now env.meanwhile (point_type (req.form "type")))
        (go_typed-Kept fl env.net env.now env.meanwhile (point_type (req.form "type"))))
  answer-Changes env nav_clear req m c a =
      on_current-Changes fl watch env.meanwhile _ m a
        (clear_typed-Kept fl env.net env.now env.meanwhile (point_type (req.form "type")))
  answer-Changes env nav_fetch req m c a = on_current-Changes fl watch env.meanwhile _ m a (
      with_a_client-Kept fl env.meanwhile
        (fetch_typed env.net env.now env.meanwhile (point_type (req.form "type")))
        (fetch_typed-Kept fl env.net env.now env.meanwhile (point_type (req.form "type"))))
  answer-Changes env nav_import req m c a = import_nav_points-Changes req.payload m c
  answer-Changes env nav_delete req m c a =
      on_current-Changes fl watch env.meanwhile _ m a
        (delete_point-Kept fl env.meanwhile (req.query "type") (req.query "name"))
  answer-Changes env speech_status req m c a = stays fl watch m
  answer-Changes env speech_transcribe req m c a = stays fl watch m
  answer-Changes env partial_robots req m c a = stays fl watch m
  answer-Changes env partial_settings req m c a = stays fl watch m
  answer-Changes env partial_nav_points req m c a = stays fl watch m
  answer-Changes env dialog_add_robot req m c a = stays fl watch m
  answer-Changes env dialog_save_map req m c a = stays fl watch m
  answer-Changes env dialog_open_map req m c a =
      on_current-Changes fl watch env.meanwhile _ m a
        (refresh_maps-Kept fl env.codec env.net env.now env.meanwhile)
  answer-Changes env dialog_confirm req m c a = stays fl watch m
  answer-Changes env dialog_add_nav_point req m c a = stays fl watch m
  answer-Changes env web_socket req m c a = stays fl watch m
