-- ===== src/Examples.antt =====
-- Concrete inputs: an arithmetic, a decoder, a network and a host, a client, robots and messages.
mod Links
mod Calls
mod Messages
mod Robots
mod Points
mod Browser
mod Server
mod Settled
mod Sockets
mod Start
mod Spoken
mod Speech
use rom_go_app.Prelude.{
  ℕ, ◌+◌, ◌-◌, ◌*◌, ◌/◌, ◌≡◌, refl, String, Bool, true, false, Option, none, some, List, [], ◌∷◌,
  if◌then◌else◌, Float64, ltb, ◌==◌, ◌=?◌,
}
use rom_go_app.Rosbridge.Types.{
  TwistData, Transform, TransformStamped, NavigationPoint, zero_twist, zero_stamped, zero_vector,
  zero_quaternion,
}
use rom_go_app.Rosbridge.Codec.{Raw, Envelope, Codec}
use rom_go_app.Rosbridge.Client.{Client, Network, Dialer, new_client}

abbrev pub fl : Float64 ℕ
fl = record {
  zero_float = 0;
  one_float = 1;
  two_float = 2;
  default_radius = 3;
  add = λ a b. a + b;
  sub = λ a b. a - b;
  mul = λ a b. a * b;
  div = λ a b. a / b;
  atan2 = λ a b. a + b;
  eqb = λ a b. a == b;
  gtb = λ a b. ltb b a;
}

-- The transforms of a message: from `odom` to `base_footprint`, and behind it from `map` to `odom`.
abbrev pub moved : ℕ → Transform ℕ
moved x = record { translation = record (zero_vector fl) { x = x }; rotation = zero_quaternion fl }

abbrev pub framed : String → String → ℕ → TransformStamped ℕ
framed parent child x = record {
  header = record { stamp = record { sec = 0; nanosec = 0; nsec = 0 }; frame_id = parent };
  child_frame_id = child;
  transform = moved x;
}

abbrev pub transforms : List (TransformStamped ℕ)
transforms = framed "odom" "base_footprint" 4 ∷ framed "map" "odom" 9 ∷ []

-- A decoder that takes every message for a publication on "/r1/tf".
abbrev pub codec : Codec ℕ
codec = record {
  envelope = λ raw. some (record { op = "publish"; topic = "/r1/tf"; id = ""; msg = raw });
  grid = λ _. none;
  twist = λ _. none;
  transforms = λ _. some transforms;
  odometry = λ _. none;
  laser_scan = λ _. none;
  pose2d = λ _. none;
  handshake_values = λ _. none;
  handshake = λ _. none;
  which_maps_values = λ _. none;
  which_maps = λ _. record { total_maps = 0; map_names = [] };
  which_task_values = λ _. none;
  which_task = λ _. record { task_name = ""; status = 0; response_settings = "" };
}

abbrev pub net : Network ℕ
net _ _ = true

abbrev pub dial : Dialer
dial url = if url =? "ws://10.0.0.1:9090" then some 7 else none

abbrev pub idle : Client ℕ
idle = record (new_client fl "/r1" "10.0.0.1" 9090) { wired = true }

abbrev pub live : Client ℕ
live = record idle { connected = true; conn = some 5 }

abbrev pub twist : ℕ → TwistData ℕ
twist v = record (zero_twist fl) { linear_x = v }
