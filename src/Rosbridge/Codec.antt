-- ===== src/Rosbridge/Codec.antt =====
-- `json.Unmarshal` at the types that the client reads, as a parameter of the model: a decoder of the
-- received bytes for each, `none` where the call returns an error. Where the source drops that
-- error, the decoder returns what stands in the variable afterwards.
use rom_go_app.Prelude.{ℕ, String, List, Option}
use rom_go_app.Rosbridge.Types.{
  Twist, TransformStamped, Odometry, LaserScan, Pose2D, WhichMapsResponse, HandshakeResponse,
  WhichTaskResponse,
}

-- The bytes of a message as received.
abbrev pub Raw : Type 0
Raw = List ℕ

-- The `envelope` of `handleMessage`.
pub record Envelope : Type 0 where
  pub op : String
  pub topic : String
  pub id : String
  pub msg : Raw

-- The `grid` of `parseMap`; `cells` is its `Data`, a list of `int`s.
pub record Grid (F : Type 0) : Type 0 where
  pub width : ℕ
  pub height : ℕ
  pub resolution : F
  pub origin_x : F
  pub origin_y : F
  pub cells : List ℕ

pub record Codec (F : Type 0) : Type 0 where
  pub envelope : Raw → Option Envelope
  pub grid : Raw → Option (Grid F)
  pub twist : Raw → Option (Twist F)
  pub transforms : Raw → Option (List (TransformStamped F))
  pub odometry : Raw → Option (Odometry F)
  pub laser_scan : Raw → Option (LaserScan F)
  pub pose2d : Raw → Option (Pose2D F)
  -- the responses, in their "values" wrapper and directly
  pub handshake_values : Raw → Option (HandshakeResponse F)
  pub handshake : Raw → Option (HandshakeResponse F)
  pub which_maps_values : Raw → Option WhichMapsResponse
  pub which_maps : Raw → WhichMapsResponse
  pub which_task_values : Raw → Option WhichTaskResponse
  pub which_task : Raw → WhichTaskResponse
