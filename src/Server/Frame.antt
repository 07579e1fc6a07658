-- ===== src/Server/Frame.antt =====
-- The requests on maps, modes and navigation points touch the current robot only.
use rom_go_app.Prelude.{
  if_holds, ◌≡◌, ◌≢◌, refl, String, Option, none, some, Float64, ◌=?◌, get-put_ne, sym,
  Option-cases, inl, inr, get,
}
use rom_go_app.Rosbridge.Codec.{Raw}
use rom_go_app.Rosbridge.Client.{Client, Result}
use rom_go_app.Robot.{Robot}
use rom_go_app.Manager.{Manager, get_robot, get_current_robot, update_robot}
use rom_go_app.Api.{
  Status, success, method_not_allowed, bad_request, conflict, not_found, service_unavailable,
  internal_error,
}
use rom_go_app.Api.Current.{on_current}
use rom_go_app.Api.Points.{
  add_navigation_point, send_navigation_points, go_all_points, clear_navigation_points,
  request_nav_points_from_robot, import_nav_points, delete_nav_point,
}
use rom_go_app.Api.Maps.{
  connected_call, mode_request, named_call, named_map_request, list_maps, open_map_dialog,
  save_map_request, open_map_request, set_navigation_mode, set_mapping_mode, set_remapping_mode,
}
use rom_go_app.Server.{
  Env, HttpRequest, Handler, static_files, index_page, robots, robots_switch, robots_status,
  robots_history, robots_settings, robots_task, robots_power_off, robots_reboot, maps_list,
  maps_save, maps_open, mode_navigation, mode_mapping, mode_remapping, nav_add, nav_list, nav_send,
  nav_go, nav_clear, nav_fetch, nav_import, nav_delete, speech_status, speech_transcribe,
  partial_robots, partial_settings, partial_nav_points, dialog_add_robot, dialog_save_map,
  dialog_open_map, dialog_confirm, dialog_add_nav_point, web_socket, answer, maps_answer,
}

-- The handlers that act on the current robot.
abbrev pub ActsOnCurrent : Handler → Type 0
ActsOnCurrent maps_list = Unit
ActsOnCurrent maps_save = Unit
ActsOnCurrent maps_open = Unit
ActsOnCurrent mode_navigation = Unit
ActsOnCurrent mode_mapping = Unit
ActsOnCurrent mode_remapping = Unit
ActsOnCurrent nav_add = Unit
ActsOnCurrent nav_list = Unit
ActsOnCurrent nav_send = Unit
ActsOnCurrent nav_go = Unit
ActsOnCurrent nav_clear = Unit
ActsOnCurrent nav_fetch = Unit
ActsOnCurrent nav_import = Unit
ActsOnCurrent nav_delete = Unit
ActsOnCurrent dialog_open_map = Unit
ActsOnCurrent _ = ⊥

module _ {F : Type 0} where
  -- `m'` is `m` but for the current robot.
  pub record SameBut (m m' : Manager F) : Type 0 where
    pub others : (k : String) → k ≢ m.current_id → get_robot k m' ≡ get_robot k m
    pub current_id : m'.current_id ≡ m.current_id
    pub next_id : m'.next_id ≡ m.next_id
    pub hub : m'.hub ≡ m.hub
    pub removed : m'.removed ≡ m.removed

  same : (m : Manager F) → SameBut m m
  same m = record {
    others = λ k n. refl;
    current_id = refl;
    next_id = refl;
    hub = refl;
    removed = refl;
  }

  abbrev Spares : {A : Type 0} → Manager F → Manager F × A → Type 0
  Spares m w = SameBut m w.0

  update_robot-SameBut :
      (f : Robot F → Robot F) (m : Manager F) → SameBut m (update_robot m.current_id f m)
  unfolding update_robot get_robot
  update_robot-SameBut f m = elim (Option-cases (get m.current_id m.robots)) [
    | inl e ↦ rw (e, update_robot) (same m)
    | inr (r, e) ↦
        rw (e, update_robot)
          (record {
            others = λ k other. get-put_ne m.current_id k (f r) m.robots (λ at. other (sym at));
            current_id = refl;
            next_id = refl;
            hub = refl;
            removed = refl;
          })
  ]

  on_current-SameBut :
      (f : Robot F → Robot F × Status) (m : Manager F) → SameBut m (on_current f m).0
  unfolding on_current
  on_current-SameBut f m = elim (Option-cases (get_current_robot m)) [
    | inl e ↦ rw (e, on_current) (same m)
    | inr (r, e) ↦ rw (e, on_current) (update_robot-SameBut (λ s. (f s).0) m)
  ]

  mode_request-SameBut :
      (call : Client F → Client F × Result Raw) (method : String) (m : Manager F)
      → SameBut m (mode_request call method m).0
  unfolding mode_request
  mode_request-SameBut call method m =
      if_holds (Spares m) (method =? "POST") (on_current-SameBut (connected_call call) m) (same m)

  named_call-SameBut :
      (call : String → Client F → Client F × Result Raw) (body : Option String) (m : Manager F)
      → SameBut m (named_call call body m).0
  named_call-SameBut call none m = same m
  named_call-SameBut call (some name) m =
      if_holds (Spares m) (name =? "") (same m) (on_current-SameBut (connected_call (call name)) m)

  named_map_request-SameBut :
      (call : String → Client F → Client F × Result Raw) (method : String) (body : Option String)
      (m : Manager F)
      → SameBut m (named_map_request call method body m).0
  unfolding named_map_request
  named_map_request-SameBut call method body m =
      if_holds (Spares m) (method =? "POST") (named_call-SameBut call body m) (same m)

  list_maps-SameBut :
      (env : Env F) (method : String) (m : Manager F)
      → SameBut m (list_maps env.codec env.net env.now env.meanwhile method m).0
  unfolding list_maps
  list_maps-SameBut env method m =
      if_holds (Spares m) (method =? "GET") (on_current-SameBut _ m) (same m)

  maps_answer-state : (w : Manager F × Status) → (maps_answer w).0 ≡ w.0
  maps_answer-state (m, success) = refl
  maps_answer-state (m, method_not_allowed) = refl
  maps_answer-state (m, bad_request) = refl
  maps_answer-state (m, conflict) = refl
  maps_answer-state (m, not_found) = refl
  maps_answer-state (m, service_unavailable) = refl
  maps_answer-state (m, internal_error) = refl

module _ {F : Type 0} (fl : Float64 F) (env : Env F) where
  -- A request on maps, modes or navigation points, whatever its answer, leaves every robot but the
  -- current one as it was, and changes neither the current id nor the rest of the registry.
  pub answer-SameBut :
      (h : Handler) (req : HttpRequest F) (m : Manager F)
      → ActsOnCurrent h
      → SameBut m (answer fl env h req m).0
  unfolding answer add_navigation_point send_navigation_points go_all_points clear_navigation_points
      request_nav_points_from_robot delete_nav_point import_nav_points open_map_dialog
      save_map_request open_map_request set_navigation_mode set_mapping_mode set_remapping_mode
  answer-SameBut maps_list req m v =
      rw (maps_answer-state (list_maps env.codec env.net env.now env.meanwhile req.method m))
        (list_maps-SameBut env req.method m)
  answer-SameBut maps_save req m v = named_map_request-SameBut _ req.method req.map_name m
  answer-SameBut maps_open req m v = named_map_request-SameBut _ req.method req.map_name m
  answer-SameBut mode_navigation req m v = mode_request-SameBut _ req.method m
  answer-SameBut mode_mapping req m v = mode_request-SameBut _ req.method m
  answer-SameBut mode_remapping req m v = mode_request-SameBut _ req.method m
  answer-SameBut nav_list req m v = same m
  answer-SameBut nav_add req m v = on_current-SameBut _ m
  answer-SameBut nav_send req m v = on_current-SameBut _ m
  answer-SameBut nav_go req m v = on_current-SameBut _ m
  answer-SameBut nav_clear req m v = on_current-SameBut _ m
  answer-SameBut nav_fetch req m v = on_current-SameBut _ m
  answer-SameBut nav_import req m v = on_current-SameBut _ m
  answer-SameBut nav_delete req m v = on_current-SameBut _ m
  answer-SameBut dialog_open_map req m v = on_current-SameBut _ m
  answer-SameBut static_files req m v = absurd v
  answer-SameBut index_page req m v = absurd v
  answer-SameBut robots req m v = absurd v
  answer-SameBut robots_switch req m v = absurd v
  answer-SameBut robots_status req m v = absurd v
  answer-SameBut robots_history req m v = absurd v
  answer-SameBut robots_settings req m v = absurd v
  answer-SameBut robots_task req m v = absurd v
  answer-SameBut robots_power_off req m v = absurd v
  answer-SameBut robots_reboot req m v = absurd v
  answer-SameBut speech_status req m v = absurd v
  answer-SameBut speech_transcribe req m v = absurd v
  answer-SameBut partial_robots req m v = absurd v
  answer-SameBut partial_settings req m v = absurd v
  answer-SameBut partial_nav_points req m v = absurd v
  answer-SameBut dialog_add_robot req m v = absurd v
  answer-SameBut dialog_save_map req m v = absurd v
  answer-SameBut dialog_confirm req m v = absurd v
  answer-SameBut dialog_add_nav_point req m v = absurd v
  answer-SameBut web_socket req m v = absurd v
