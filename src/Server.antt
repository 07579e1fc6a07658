-- ===== src/Server.antt =====
-- main.go: the server as a whole. A request finds its handler by its path, and the registry is what
-- the requests, the browsers' commands and the goroutines of the robots share.
mod Routes
mod Answers
pub mod Kept
pub mod Robots
pub mod Edits
pub mod Points
pub mod Transfers
pub mod Changes
pub mod Requests
pub mod Events
pub mod Composition
pub mod Sockets
pub mod Start
pub mod Turned
pub mod Refusals
pub mod Frame
pub mod Listings
unfoldable pub use Routes.*
unfoldable pub use Answers.*
use rom_go_app.Prelude.{String, Bool, List, [], ◌∷◌, Float64}
use rom_go_app.Rosbridge.Client.Replies.{send_voice_command}
use rom_go_app.Rosbridge.Client.Parsers.{Callback}
use rom_go_app.Rosbridge.Client.Lifecycle.Steps as Lifecycle
use rom_go_app.Robot.{with_client}
use rom_go_app.Manager.{
  Manager, update_robot, deliver, robot_connected, robot_disconnected, clear_all,
}
use rom_go_app.Browser.{Command, handle_ws_command}
use rom_go_app.Api.{settle}

-- What happens to the registry: a request, a command of a browser, a callback of a client with the
-- manager's wrapper, the two goroutines of a handler, a turn of a client's goroutines, and the end.
pub data Event (F : Type 0) : Type 0 where
  requests : HttpRequest F → Event F
  commands_in : Command → Event F
  calls_back : String → Callback F → Event F
  comes_up : String → Event F
  goes_down : String → Event F
  settles : String → Event F
  speaks : String → String → Event F
  turns : String → Lifecycle.Event F → Event F
  shuts_down : (String → Bool) → Event F

module _ {F : Type 0} (fl : Float64 F) where
  unfoldable pub step : Env F → Event F → Manager F → Manager F
  step env (requests req) m = (respond fl env req m).0
  step env (commands_in cmd) m =
      (handle_ws_command fl env.codec env.commands env.net env.now env.meanwhile env.stop_taken cmd
        m).0
  step env (calls_back id callback) m = deliver env.now id callback m
  step env (comes_up id) m = robot_connected env.net id m
  step env (goes_down id) m = robot_disconnected id m
  step env (settles id) m =
      update_robot id (settle fl env.codec env.net env.now env.meanwhile env.dial) m
  step env (speaks id text) m =
      update_robot id
        (with_client (λ c. (send_voice_command env.codec env.net env.now env.meanwhile text c).0)) m
  step env (turns id e) m =
      update_robot id (with_client (λ c. Lifecycle.step fl env.codec env.net c e)) m
  step env (shuts_down stop_taken) m = clear_all env.net stop_taken m

  unfoldable pub run : List (Env F × Event F) → Manager F → Manager F
  run [] m = m
  run ((env, e) ∷ es) m = run es (step env e m)
