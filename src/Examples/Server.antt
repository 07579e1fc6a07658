-- ===== src/Examples/Server.antt =====
-- Requests to the server.
use rom_go_app.Prelude.{
  ℕ, ◌≡◌, refl, String, true, none, some, List, [], ◌∷◌, All, sprint_int, if◌then◌else◌, ◌=?◌,
  arith,
}
use rom_go_app.Robot.{new_robot}
use rom_go_app.Navigation.Names.{WellNamed}
use rom_go_app.Manager.{new_manager, add_robot, has_address, get_robot}
use rom_go_app.Manager.Invariant.{Registry}
use rom_go_app.Api.{add_robot_request, add_robot_at, port_of}
use rom_go_app.Robot.{Robot, get_map_list}
use rom_go_app.Navigation.{has_name}
use rom_go_app.Navigation.Names.{waypoint, points, new_point}
use rom_go_app.Manager.{Manager, get_current_robot}
use rom_go_app.Api.{success, bad_request}
use rom_go_app.Api.Points.{point_type, listed, one_list}
use rom_go_app.Server.Listings.{add-list_points, save-list_maps}
use rom_go_app.Examples.{live}
use rom_go_app.Prelude.{◌++◌, ◌||◌, ◌⊎◌, false}
use rom_go_app.Server.{
  status, point_lists, map_names, nav_add, nav_list, maps_save, maps_list, point_form, Env,
  HttpRequest, Event, requests, commands_in, goes_down, route, robots_by_method, answer, respond,
  step, run, nav_clear,
}
use rom_go_app.Server.Events.{CheckedEvent}
use rom_go_app.Server.Kept.{names}
use rom_go_app.Server.Composition.{run-new_server-Registry, run-new_server-WellNamed}
use rom_go_app.Server.Turned.{IsRefused}
use rom_go_app.Server.Refusals.{respond-IsRefused}
use rom_go_app.Server.Frame.{SameBut, answer-SameBut}
use rom_go_app.Examples.{fl, codec, net, dial}
use rom_go_app.Examples.Browser.{commands, driven}

abbrev pub env : Env ℕ
env = record {
  codec = codec;
  commands = commands;
  net = net;
  dial = dial;
  now = 5;
  meanwhile = λ c. c;
  stop_taken = true;
  choice = 0;
  atoi = λ _. some 9090;
  float_value = λ _. 0;
  float_checked = λ _. none;
  settings_text = λ x y z. "{}";
}

abbrev field : String → String
field name =
    if name =? "namespace"
    then "/r1"
    else if name =? "name"
    then "one"
    else if name =? "ip"
    then "10.0.0.1"
    else ""

abbrev pub request : String → String → HttpRequest ℕ
request method path = record {
  method = method;
  path = path;
  form = field;
  query = λ _. "";
  map_name = none;
  payload = none;
}

abbrev events : List (Env ℕ × Event ℕ)
events =
    (env, requests (request "POST" "/api/robots"))
    ∷ (env, commands_in driven)
    ∷ (env, goes_down "1")
    ∷ []

run-new_server-Registry_example : Registry (run fl events new_manager)
run-new_server-Registry_example = run-new_server-Registry fl events (omega arith)

abbrev addition : List (Env ℕ × Event ℕ)
addition = (env, requests (request "POST" "/api/robots")) ∷ []

addition_checked : All (λ (e : Env ℕ × Event ℕ). CheckedEvent names e.1) addition
unfolding route
addition_checked = (tt, tt)

added :
    get_robot "1" (run fl addition new_manager)
    ≡ some (new_robot fl "1" "/r1" "one" "10.0.0.1" 9090)
unfolding run step respond answer route robots_by_method add_robot_request add_robot_at port_of
    add_robot has_address new_manager get_robot sprint_int
added = refl

run-new_server-WellNamed_example : WellNamed (new_robot fl "1" "/r1" "one" "10.0.0.1" 9090)
run-new_server-WellNamed_example =
    run-new_server-WellNamed fl addition addition_checked (omega arith) "1"
      (new_robot fl "1" "/r1" "one" "10.0.0.1" 9090) added

no_such_method : IsRefused (respond fl env (request "PATCH" "/api/robots") (new_manager {F = ℕ})).1
unfolding respond route answer robots_by_method
no_such_method = tt

respond-IsRefused_example :
    (respond fl env (request "PATCH" "/api/robots") new_manager).0 ≡ new_manager
respond-IsRefused_example =
    respond-IsRefused fl env (request "PATCH" "/api/robots") new_manager no_such_method

answer-SameBut_example :
    SameBut
      (run fl addition new_manager)
      (answer fl env nav_clear (request "POST" "/api/nav/clear") (run fl addition new_manager)).0
answer-SameBut_example =
    answer-SameBut fl env nav_clear (request "POST" "/api/nav/clear") (run fl addition new_manager)
      tt

-- The current robot has a live client and knows one map.
abbrev mapped : Robot ℕ
mapped = record (new_robot fl "1" "/r1" "one" "10.0.0.1" 9090) {
  client = some live;
  map_list = "hall" ∷ [];
}

abbrev fleet : Manager ℕ
fleet = record new_manager { robots = ("1", mapped) ∷ []; current_id = "1" }

mapped_current : get_current_robot fleet ≡ some mapped
unfolding get_current_robot
mapped_current = refl

abbrev docking : HttpRequest ℕ
docking = record (request "POST" "/api/nav/add") {
  form = λ name. if name =? "type" then "waypoint" else "dock";
}

abbrev listing : HttpRequest ℕ
listing = record (request "GET" "/api/nav/list") { query = λ _. "waypoint" }

is_waypoint : point_type "waypoint" ≡ listed waypoint
unfolding point_type
is_waypoint = refl

add-list_points_example :
    let (after, reply) = answer fl env nav_add docking fleet in
    let shown = (answer fl env nav_list listing after).1 in
    let p = point_form fl env docking in
    let refused = (p.name =? "") || has_name p.name (points waypoint mapped) in
    ((refused ≡ true)
      × (reply ≡ status bad_request)
      × (shown ≡ point_lists (one_list (points waypoint mapped))))
    ⊎ ((refused ≡ false)
        × (reply ≡ status success)
        × (shown
            ≡ point_lists
                (one_list (points waypoint mapped ++ new_point fl p.name p.x p.y p.theta ∷ []))))
add-list_points_example =
    add-list_points fl env docking listing fleet mapped waypoint mapped_current is_waypoint
      is_waypoint

abbrev saving : HttpRequest ℕ
saving = record (request "POST" "/api/maps/save") { map_name = some "yard" }

one_map : get_map_list mapped ≡ "hall" ∷ []
unfolding get_map_list
one_map = refl

save-list_maps_example :
    let after = (answer fl env maps_save saving fleet).0 in
    answer fl env maps_list (request "GET" "/api/maps") after
    ≡ (after, map_names (some ("hall" ∷ [])))
save-list_maps_example =
    save-list_maps fl env saving (request "GET" "/api/maps") fleet mapped "hall" [] mapped_current
      one_map refl
