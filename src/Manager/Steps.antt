-- ===== src/Manager/Steps.antt =====
-- The operations on the registry as a sequence, in which the outside world makes its choices.
use rom_go_app.Prelude.{ℕ, String, Bool, List, [], ◌∷◌, Float64}
use rom_go_app.Rosbridge.Client.{Network}
use rom_go_app.Rosbridge.Client.Parsers.{Callback}
use rom_go_app.Manager.{
  Manager, add_robot, remove_robot, switch_robot, clear_all, deliver, robot_connected,
  robot_disconnected,
}

pub data Op (F : Type 0) : Type 0 where
  adds : String → String → String → ℕ → Op F
  removes : Bool → ℕ → String → Op F
  switches : String → Op F
  clears : (String → Bool) → Op F
  delivers : ℕ → String → Callback F → Op F
  connects : String → Op F
  disconnects : String → Op F

module _ {F : Type 0} (fl : Float64 F) (net : Network F) where
  unfoldable pub step : Manager F → Op F → Manager F
  step m (adds ns name ip port) = (add_robot fl ns name ip port m).0
  step m (removes stop_taken choice id) = (remove_robot net stop_taken choice id m).0
  step m (switches id) = (switch_robot id m).0
  step m (clears stop_taken) = clear_all net stop_taken m
  step m (delivers now id callback) = deliver now id callback m
  step m (connects id) = robot_connected net id m
  step m (disconnects id) = robot_disconnected id m

  unfoldable pub run : Manager F → List (Op F) → Manager F
  run m [] = m
  run m (op ∷ ops) = run (step m op) ops
