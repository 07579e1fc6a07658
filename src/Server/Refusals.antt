-- ===== src/Server/Refusals.antt =====
-- A request that is turned down leaves the registry as it was.
use rom_go_app.Prelude.{if_holds, ℕ, ◌≡◌, refl, String, none, Float64, arith, ◌=?◌}
use rom_go_app.Rosbridge.Client.{Client, Network}
use rom_go_app.Rosbridge.Client.Replies.{request_task, request_power_off, request_reboot}
use rom_go_app.Robot.{Robot}
use rom_go_app.Navigation.{delete_point}
use rom_go_app.Manager.{Manager}
use rom_go_app.Api.{request_task_of, power_off, reboot}
use rom_go_app.Api.Points.{
  point_type, add_typed_point, send_typed, go_typed, fetch_typed, clear_typed, import_payload,
  add_navigation_point, send_navigation_points, go_all_points, clear_navigation_points,
  request_nav_points_from_robot, import_nav_points, delete_nav_point,
}
use rom_go_app.Api.Maps.{
  open_map_dialog, save_map_request, open_map_request, set_navigation_mode, set_mapping_mode,
  set_remapping_mode,
}
use rom_go_app.Server.{
  Env, HttpRequest, Handler, static_files, index_page, robots, robots_switch, robots_status,
  robots_history, robots_settings, robots_task, robots_power_off, robots_reboot, maps_list,
  maps_save, maps_open, mode_navigation, mode_mapping, mode_remapping, nav_add, nav_list, nav_send,
  nav_go, nav_clear, nav_fetch, nav_import, nav_delete, speech_status, speech_transcribe,
  partial_robots, partial_settings, partial_nav_points, dialog_add_robot, dialog_save_map,
  dialog_open_map, dialog_confirm, dialog_add_nav_point, web_socket, switch_id, route,
  robots_by_method, answer, respond, add_form, point_form,
}
use rom_go_app.Navigation.{add_wall_obstacle}
use rom_go_app.Navigation.Names.{Kind, add_point, add_point_lem}
use rom_go_app.Api.Requests.{add_robot_request-refused}
use rom_go_app.Api.Current.{IsRefusal, on_current_refused}
use rom_go_app.Api.Points.{PointType, listed, wall, invalid_type, PointForm}
use rom_go_app.Prelude.{◌⊎◌}
use rom_go_app.Api.Requests.{add_robot_request-refused}
use rom_go_app.Server.Turned.{
  IsRefused, Turns, remove_robot_request-refused, switch_robot_request-refused,
  task_request-refused, update_settings-refused, mode_request-refused, named_map_request-refused,
  willing-refused, list_maps-refused, maps_answer-IsRefused, edited-refused,
  remote_status-ne-IsRefusal, with_a_client-refused, import_payload-refused, refusal-ne-success,
}

module _ {F : Type 0} (fl : Float64 F) where
  add_point-outcome :
      (k : Kind) (name : String) (x y theta : F) (r : Robot F)
      → ((add_point fl k name x y theta r).1 ≡ none) ⊎ ((add_point fl k name x y theta r).0 ≡ r)
  add_point-outcome k name x y theta r = rw (add_point_lem fl k name x y theta r) (ground arith)

  add_wall-outcome :
      (name : String) (x1 y1 x2 y2 : F) (r : Robot F)
      → ((add_wall_obstacle fl name x1 y1 x2 y2 r).1 ≡ none)
        ⊎ ((add_wall_obstacle fl name x1 y1 x2 y2 r).0 ≡ r)
  unfolding add_wall_obstacle
  add_wall-outcome name x1 y1 x2 y2 r = ground arith

  add_typed_point-refused :
      (t : PointType) (p : PointForm F) (r : Robot F)
      → IsRefusal (add_typed_point fl t p r).1
      → (add_typed_point fl t p r).0 ≡ r
  unfolding add_typed_point
  add_typed_point-refused (listed k) p r h =
      edited-refused r _ (add_point-outcome k p.name p.x p.y p.theta r) h
  add_typed_point-refused wall p r h =
      edited-refused r _ (add_wall-outcome p.name p.x p.y p.x2 p.y2 r) h
  add_typed_point-refused invalid_type p r h = refl

  robots_by_method-IsRefused :
      (env : Env F) (req : HttpRequest F) (m : Manager F)
      → Turns IsRefused m (robots_by_method fl env req m)
  unfolding robots_by_method
  robots_by_method-IsRefused env req m =
      if_holds (Turns IsRefused m) (req.method =? "GET") (λ h. refl)
        (if_holds (Turns IsRefused m) (req.method =? "POST")
          (λ h.
            add_robot_request-refused fl env.atoi (add_form fl env req) m (refusal-ne-success _ h))
          (if_holds (Turns IsRefused m) (req.method =? "DELETE")
            (λ h.
              remove_robot_request-refused env.net env.stop_taken env.choice req.method
                (req.query "id") m h)
            (λ h. refl)))

module _ {F : Type 0} (net : Network F) (now : ℕ) (meanwhile : Client F → Client F) where
  send_typed-refused :
      (t : PointType) (r : Robot F)
      → IsRefusal (send_typed net now meanwhile t r).1
      → (send_typed net now meanwhile t r).0 ≡ r
  unfolding send_typed
  send_typed-refused (listed k) r h = absurd (remote_status-ne-IsRefusal _ h)
  send_typed-refused wall r h = absurd (remote_status-ne-IsRefusal _ h)
  send_typed-refused invalid_type r h = refl

  go_typed-refused :
      (t : PointType) (r : Robot F)
      → IsRefusal (go_typed net now meanwhile t r).1
      → (go_typed net now meanwhile t r).0 ≡ r
  unfolding go_typed
  go_typed-refused (listed k) r h = absurd (remote_status-ne-IsRefusal _ h)
  go_typed-refused wall r h = refl
  go_typed-refused invalid_type r h = refl

  fetch_typed-refused :
      (t : PointType) (r : Robot F)
      → IsRefusal (fetch_typed net now meanwhile t r).1
      → (fetch_typed net now meanwhile t r).0 ≡ r
  unfolding fetch_typed
  fetch_typed-refused (listed k) r h = absurd (remote_status-ne-IsRefusal _ h)
  fetch_typed-refused wall r h = refl
  fetch_typed-refused invalid_type r h = refl

  clear_typed-refused :
      (t : PointType) (r : Robot F)
      → IsRefusal (clear_typed net now meanwhile t r).1
      → (clear_typed net now meanwhile t r).0 ≡ r
  unfolding clear_typed
  clear_typed-refused (listed k) r h = absurd h
  clear_typed-refused wall r h = absurd h
  clear_typed-refused invalid_type r h = refl

module _ {F : Type 0} (fl : Float64 F) (env : Env F) where
  open env use {codec, net, now, meanwhile, stop_taken, choice, settings_text}

  pub answer-IsRefused :
      (h : Handler) (req : HttpRequest F) (m : Manager F)
      → Turns IsRefused m (answer fl env h req m)
  unfolding answer request_task_of power_off reboot add_navigation_point send_navigation_points
      go_all_points clear_navigation_points request_nav_points_from_robot delete_nav_point
      import_nav_points open_map_dialog save_map_request open_map_request set_navigation_mode
      set_mapping_mode set_remapping_mode
  answer-IsRefused static_files req m h = refl
  answer-IsRefused index_page req m h =
      if_holds (Turns IsRefused m) (req.path =? "/") (λ h. refl) (λ h. refl) h
  answer-IsRefused robots req m h = robots_by_method-IsRefused fl env req m h
  answer-IsRefused robots_switch req m h = switch_robot_request-refused (switch_id fl env req) m h
  answer-IsRefused robots_status req m h = refl
  answer-IsRefused robots_history req m h = refl
  answer-IsRefused robots_settings req m h =
      update_settings-refused fl codec net now meanwhile settings_text (req.form "id") _ m h
  answer-IsRefused robots_task req m h =
      task_request-refused fl codec net now meanwhile
        (request_task codec net now meanwhile (req.form "task") (req.form "settings"))
        (req.form "id") m h
  answer-IsRefused robots_power_off req m h =
      task_request-refused fl codec net now meanwhile (request_power_off codec net now meanwhile)
        (req.form "id") m h
  answer-IsRefused robots_reboot req m h =
      task_request-refused fl codec net now meanwhile (request_reboot codec net now meanwhile)
        (req.form "id") m h
  answer-IsRefused maps_list req m h =
      maps_answer-IsRefused m _ (list_maps-refused env req.method m) h
  answer-IsRefused maps_save req m h = named_map_request-refused _ req.method req.map_name m h
  answer-IsRefused maps_open req m h = named_map_request-refused _ req.method req.map_name m h
  answer-IsRefused mode_navigation req m h = mode_request-refused _ req.method m h
  answer-IsRefused mode_mapping req m h = mode_request-refused _ req.method m h
  answer-IsRefused mode_remapping req m h = mode_request-refused _ req.method m h
  answer-IsRefused nav_add req m h =
      on_current_refused _ m (add_typed_point-refused fl _ (point_form fl env req)) h
  answer-IsRefused nav_list req m h = refl
  answer-IsRefused nav_send req m h =
      on_current_refused _ m
        (λ r.
          with_a_client-refused (send_typed net now meanwhile (point_type (req.form "type")))
            r.client r (send_typed-refused net now meanwhile _ r))
        h
  answer-IsRefused nav_go req m h =
      on_current_refused _ m
        (λ r.
          with_a_client-refused (go_typed net now meanwhile (point_type (req.form "type"))) r.client
            r (go_typed-refused net now meanwhile _ r))
        h
  answer-IsRefused nav_clear req m h =
      on_current_refused _ m (clear_typed-refused net now meanwhile (point_type (req.form "type")))
        h
  answer-IsRefused nav_fetch req m h =
      on_current_refused _ m
        (λ r.
          with_a_client-refused (fetch_typed net now meanwhile (point_type (req.form "type")))
            r.client r (fetch_typed-refused net now meanwhile _ r))
        h
  answer-IsRefused nav_import req m h =
      on_current_refused (import_payload req.payload) m (import_payload-refused req.payload) h
  answer-IsRefused nav_delete req m h =
      willing-refused (delete_point (req.query "type") (req.query "name")) m h
  answer-IsRefused speech_status req m h = refl
  answer-IsRefused speech_transcribe req m h = refl
  answer-IsRefused partial_robots req m h = refl
  answer-IsRefused partial_settings req m h = refl
  answer-IsRefused partial_nav_points req m h = refl
  answer-IsRefused dialog_add_robot req m h = refl
  answer-IsRefused dialog_save_map req m h = refl
  answer-IsRefused dialog_open_map req m h = absurd h
  answer-IsRefused dialog_confirm req m h = refl
  answer-IsRefused dialog_add_nav_point req m h = refl
  answer-IsRefused web_socket req m h = refl

  -- A request that is answered by 400, 404, 405, 409 or 503, whatever its path, the paths of speech,
  -- of static files and of the web socket apart, leaves the registry and all its robots as they were.
  pub respond-IsRefused :
      (req : HttpRequest F) (m : Manager F)
      → IsRefused (respond fl env req m).1
      → (respond fl env req m).0 ≡ m
  unfolding respond
  respond-IsRefused req m h = answer-IsRefused (route req.path) req m h
