-- ===== src/Examples/Robots.antt =====
-- Registries of robots, and subscribers of their broadcasts.
use rom_go_app.Prelude.{
  ℕ, ◌+◌, ◌<◌, ◌≡◌, ◌≢◌, refl, ◌⊎◌, String, true, none, some, List, [], ◌∷◌, ◌++◌, if◌then◌else◌,
  ◌=?◌, length, take, sprint_int, arith, int_half,
}
use rom_go_app.Hub.{Hub, capacity, contains, empty_hub, subscribe, offer_each}
use rom_go_app.Hub.Sound.{IsSound, empty_hub-IsSound, subscribe-IsSound}
use rom_go_app.Hub.Delivery.{broadcast_all, broadcast_all-buffer, offer_each-order}
use rom_go_app.Robot.{Robot, new_robot, stop_connection}
use rom_go_app.Manager.{
  Manager, not_found, new_manager, has_address, add_robot, remove_robot, get_robot,
}
use rom_go_app.Manager.Steps.{Op, adds, removes, switches, step, run}
use rom_go_app.Manager.Invariant.{new_manager-Registry}
use rom_go_app.Manager.Registry.{remove_robot_lem}
use rom_go_app.Manager.Directory.{view, nobody, Leads}
use rom_go_app.Manager.Refinement.{run-refines}
use rom_go_app.Api.Lists.{list_robots}
use rom_go_app.Api.Rows.{MarksOne, list_robots-MarksOne}
use rom_go_app.Manager.History.{ids_never_reused}
use rom_go_app.Examples.{fl, net}

-- The second addition has the address of the first.
abbrev history : List (Op ℕ)
history =
    adds "/r1" "one" "10.0.0.1" 9090
    ∷ adds "/r2" "two" "10.0.0.1" 9090
    ∷ adds "/r3" "three" "10.0.0.3" 9090
    ∷ switches "2"
    ∷ removes true 0 "2"
    ∷ []

run-refines_example : Leads fl net history nobody (view (run fl net new_manager history))
run-refines_example = run-refines fl net history (omega arith)

list_robots-MarksOne_example :
    let m = run fl net new_manager history in
    (list_robots fl m ≡ []) ⊎ MarksOne m.current_id (list_robots fl m)
list_robots-MarksOne_example = list_robots-MarksOne fl net history (omega arith)

-- The robot that the manager makes for an address with nothing in the way.
abbrev robot : String → Robot ℕ
robot id = new_robot fl id "/r1" "one" "10.0.0.1" 9090

first_added : (add_robot fl "/r1" "one" "10.0.0.1" 9090 new_manager).1.0 ≡ some (robot "1")
unfolding add_robot new_manager has_address sprint_int
first_added = refl

abbrev removal : List (Op ℕ)
removal = removes true 0 "1" ∷ []

second_added :
    (add_robot fl "/r1" "one" "10.0.0.1" 9090
      (run fl net (add_robot fl "/r1" "one" "10.0.0.1" 9090 new_manager).0 removal)).1.0
    ≡ some (robot "2")
unfolding add_robot new_manager has_address sprint_int run remove_robot step
second_added = refl

few : (new_manager {F = ℕ}).next_id + 1 + length removal < int_half
unfolding new_manager
few = omega arith

ids_never_reused_example : (robot "1").id ≢ (robot "2").id
ids_never_reused_example =
    ids_never_reused fl net "/r1" "/r1" "one" "one" "10.0.0.1" "10.0.0.1" 9090 9090 new_manager
      removal new_manager-Registry few first_added second_added

abbrev one_robot : Manager ℕ
one_robot = (add_robot fl "/r1" "one" "10.0.0.1" 9090 new_manager).0

remove_robot_lem_example :
    let (after, failure) = remove_robot net true 0 "1" one_robot in
    ((get_robot "1" one_robot ≡ none) × (after ≡ one_robot) × (failure ≡ some (not_found "1")))
    ⊎ ((r : Robot ℕ) × (get_robot "1" one_robot ≡ some r)
        × (failure ≡ none)
        × ((k : String) → get_robot k after ≡ (if "1" =? k then none else get_robot k one_robot))
        × (after.removed ≡ one_robot.removed ++ stop_connection net true r ∷ [])
        × (one_robot.current_id ≢ "1" → after.current_id ≡ one_robot.current_id)
        × (one_robot.current_id ≡ "1"
            → ((after.robots ≡ []) × (after.current_id ≡ ""))
              ⊎ ((s : Robot ℕ) × (get_robot after.current_id after ≡ some s))))
remove_robot_lem_example = remove_robot_lem net true 0 "1" one_robot

abbrev two_heard : Hub String
two_heard = (subscribe (subscribe empty_hub).0).0

two_heard-IsSound : IsSound two_heard
two_heard-IsSound =
    subscribe-IsSound (subscribe empty_hub).0 (subscribe-IsSound empty_hub empty_hub-IsSound)

in_order : (j : ℕ) → contains j (0 ∷ 1 ∷ []) ≡ contains j two_heard.subscribers
unfolding subscribe empty_hub
in_order j = refl

hears : contains 1 two_heard.subscribers ≡ true
unfolding subscribe empty_hub
hears = refl

broadcast_all-buffer_example :
    ((broadcast_all ("map" ∷ "tf" ∷ []) two_heard).chans 1).buffer
    ≡ take capacity ((two_heard.chans 1).buffer ++ "map" ∷ "tf" ∷ [])
broadcast_all-buffer_example =
    broadcast_all-buffer 1 ("map" ∷ "tf" ∷ []) two_heard two_heard-IsSound hears

swapped : (j : ℕ) → contains j (1 ∷ 0 ∷ []) ≡ contains j two_heard.subscribers
unfolding subscribe empty_hub
swapped j = ground arith

offer_each-order_example :
    (offer_each "map" (0 ∷ 1 ∷ []) two_heard).chans 1
    ≡ (offer_each "map" (1 ∷ 0 ∷ []) two_heard).chans 1
offer_each-order_example =
    offer_each-order "map" (0 ∷ 1 ∷ []) (1 ∷ 0 ∷ []) two_heard two_heard-IsSound (refl, (refl, tt))
      (refl, (refl, tt)) in_order swapped 1
