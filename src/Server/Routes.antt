-- ===== src/Server/Routes.antt =====
-- main.go: the routing table.
use text.Mathlib.Text.{starts_with}
use rom_go_app.Prelude.{String, ◌||◌, none, some, List, [], ◌∷◌, get, if◌then◌else◌, ◌=?◌}

pub data Handler : Type 0 where
  static_files index_page robots robots_switch robots_status robots_history robots_settings
        robots_task :
      Handler
  robots_power_off robots_reboot maps_list maps_save maps_open : Handler
  mode_navigation mode_mapping mode_remapping : Handler
  nav_add nav_list nav_send nav_go nav_clear nav_fetch nav_import nav_delete : Handler
  speech_status speech_transcribe partial_robots partial_settings partial_nav_points : Handler
  dialog_add_robot dialog_save_map dialog_open_map dialog_confirm dialog_add_nav_point web_socket :
      Handler

-- The calls of `HandleFunc` but those for "/" and "/static/".
abbrev pub routes : List (String × Handler)
routes =
    ("/api/robots", robots)
    ∷ ("/api/robots/switch", robots_switch)
    ∷ ("/api/robots/status", robots_status)
    ∷ ("/api/robots/velocity_history", robots_history)
    ∷ ("/api/robots/settings", robots_settings)
    ∷ ("/api/robots/task", robots_task)
    ∷ ("/api/robots/poweroff", robots_power_off)
    ∷ ("/api/robots/reboot", robots_reboot)
    ∷ ("/api/maps", maps_list)
    ∷ ("/api/maps/save", maps_save)
    ∷ ("/api/maps/open", maps_open)
    ∷ ("/api/mode/navigation", mode_navigation)
    ∷ ("/api/mode/mapping", mode_mapping)
    ∷ ("/api/mode/remapping", mode_remapping)
    ∷ ("/api/nav/add", nav_add)
    ∷ ("/api/nav/list", nav_list)
    ∷ ("/api/nav/send", nav_send)
    ∷ ("/api/nav/go", nav_go)
    ∷ ("/api/nav/clear", nav_clear)
    ∷ ("/api/nav/fetch", nav_fetch)
    ∷ ("/api/nav/import", nav_import)
    ∷ ("/api/nav/delete", nav_delete)
    ∷ ("/api/speech/status", speech_status)
    ∷ ("/api/speech/transcribe", speech_transcribe)
    ∷ ("/partial/robots", partial_robots)
    ∷ ("/partial/settings", partial_settings)
    ∷ ("/partial/nav_points", partial_nav_points)
    ∷ ("/dialog/add_robot", dialog_add_robot)
    ∷ ("/dialog/save_map", dialog_save_map)
    ∷ ("/dialog/open_map", dialog_open_map)
    ∷ ("/dialog/confirm", dialog_confirm)
    ∷ ("/dialog/add_nav_point", dialog_add_nav_point)
    ∷ ("/ws", web_socket)
    ∷ []

-- What `ServeMux` makes of a clean path: an exact pattern, then the prefix "/static/", to which
-- "/static" is redirected, then "/".
unfoldable pub route : String → Handler
route path = elim (get path routes) [
  | some h ↦ h
  | none ↦ if starts_with path "/static/" || (path =? "/static") then static_files else index_page
]
