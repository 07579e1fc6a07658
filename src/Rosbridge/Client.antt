-- ===== src/Rosbridge/Client.antt =====
-- rosbridge/client.go: the connection of one robot. A method that mutates `*Client` returns the new
-- record. The sockets are numbers that the dialer gives out, `sent` is the list of messages handed
-- to `conn.WriteMessage`, oldest first, and the goroutines that are alive are counted. The callbacks
-- are set by the robot layer all nine at once, so one flag, `wired`, stands for the nil tests.
pub mod Topics
pub mod CmdVel
pub mod Services
pub mod Replies
pub mod Parsers
pub mod Inbound
pub mod Lifecycle
use rom_go_app.Prelude.{
  ℕ, suc, ◌-◌, String, Bool, true, false, ◌&&◌, Option, none, some, List, [], ◌∷◌, ◌++◌, Float64,
  if◌then◌else◌, ◌+++◌, sprint_int,
}
use rom_go_app.Rosbridge.Types.{TwistData, TransformStamped, zero_twist, zero_stamped}
use rom_go_app.Rosbridge.Protocol.{Json}
use rom_go_app.Rosbridge.Codec.{Raw}

pub data Error : Type 0 where
  not_connected dial_failed write_failed parse_failed : Error
  timed_out : String → Error

pub data Result (A : Type 0) : Type 0 where
  ok : A → Result A
  err : Error → Result A

pub data Ticker : Type 0 where
  no_ticker ticking stopped : Ticker

pub record Client (F : Type 0) : Type 0 where
  pub ns : String
  pub host : String
  pub port : ℕ
  pub connected : Bool
  pub conn : Option ℕ
  pub topic_map : String
  pub topic_cmd_vel : String
  pub topic_tf : String
  pub topic_odom : String
  pub topic_ctrl_odom : String
  pub topic_laser : String
  pub topic_map_bfp : String
  pub cmd_vel_enabled : Bool
  pub desired_twist : TwistData F
  pub last_twist : TwistData F
  pub cmd_vel_ticker : Ticker
  pub global_map_odom : TransformStamped F
  pub wired : Bool
  -- a pending call's id and its response channel; a channel holds one response at most
  pub svc_pending : List (String × ℕ)
  pub svc_inbox : ℕ → Option Raw
  pub next_channel : ℕ
  pub sent : List (Json F)
  pub closed_sockets : List ℕ
  pub readers : ℕ
  pub publishers : ℕ
  pub reconnects : ℕ
  pub connected_calls : ℕ
  pub disconnected_calls : ℕ

-- Whether `conn.WriteMessage` succeeds, from what was handed to the socket before and the message.
abbrev pub Network : Type 0 → Type 0
Network F = List (Json F) → Json F → Bool

-- `Dial`: the socket, or `none` for an error.
abbrev pub Dialer : Type 0
Dialer = String → Option ℕ

unfoldable pub new_client : {F : Type 0} → Float64 F → String → String → ℕ → Client F
new_client fl ns host port = record {
  ns = ns;
  host = host;
  port = port;
  connected = false;
  conn = none;
  topic_map = "";
  topic_cmd_vel = "";
  topic_tf = "";
  topic_odom = "";
  topic_ctrl_odom = "";
  topic_laser = "";
  topic_map_bfp = "";
  cmd_vel_enabled = false;
  desired_twist = zero_twist fl;
  last_twist = zero_twist fl;
  cmd_vel_ticker = no_ticker;
  global_map_odom = zero_stamped fl;
  wired = false;
  svc_pending = [];
  svc_inbox = λ _. none;
  next_channel = 0;
  sent = [];
  closed_sockets = [];
  readers = 0;
  publishers = 0;
  reconnects = 0;
  connected_calls = 0;
  disconnected_calls = 0;
}

abbrev pub is_some : Option ℕ → Bool
is_some none = false
is_some (some _) = true

-- `conn.Close()` behind its nil test, on the log of the sockets closed.
abbrev pub close : Option ℕ → List ℕ → List ℕ
close none log = log
close (some socket) log = log ++ socket ∷ []

-- `cmdVelTicker.Stop()` behind its nil test.
abbrev pub stop_ticker : Ticker → Ticker
stop_ticker no_ticker = no_ticker
stop_ticker _ = stopped

module _ {F : Type 0} where
  unfoldable pub dial_url : Client F → String
  unfolding sprint_int
  dial_url c = "ws://" +++ c.host +++ ":" +++ sprint_int c.port

  unfoldable pub start_cmd_vel_publisher : Client F → Client F
  start_cmd_vel_publisher c = record c { cmd_vel_ticker = ticking; publishers = suc c.publishers }

  -- `Connect`. A failed dial leaves a reconnect goroutine behind; a successful one starts the read
  -- loop, the publisher and, if the callback is set, a goroutine that runs it.
  unfoldable pub connect : Dialer → Client F → Client F × Option Error
  unfolding start_cmd_vel_publisher
  connect dial c = if c.connected then (c, none) else (elim (dial (dial_url c)) [
    | none ↦ (record c { reconnects = suc c.reconnects }, some dial_failed)
    | some socket ↦
        let opened =
          start_cmd_vel_publisher
            (record c { conn = some socket; connected = true; readers = suc c.readers }) in
        (
          record opened {
            connected_calls = if c.wired then suc c.connected_calls else c.connected_calls;
          },
          none,
        )
  ])

  -- `disconnect`, with its lock held. The send on `stopCh` does not block: `stop_taken` says whether
  -- a publisher waits in its `select` at that moment.
  unfoldable pub disconnect : Bool → Client F → Client F
  disconnect stop_taken c =
      if c.connected
      then record c {
        connected = false;
        cmd_vel_ticker = stop_ticker c.cmd_vel_ticker;
        closed_sockets = close c.conn c.closed_sockets;
        publishers = if stop_taken then c.publishers - 1 else c.publishers;
        disconnected_calls = if c.wired then suc c.disconnected_calls else c.disconnected_calls;
      }
      else c

  unfoldable pub is_connected : Client F → Bool
  is_connected c = c.connected

  unfoldable pub send : Network F → Client F → Json F → Client F × Option Error
  send net c message =
      if c.connected && is_some c.conn
      then (
        record c { sent = c.sent ++ message ∷ [] },
        if net c.sent message then none else some write_failed,
      )
      else (c, some not_connected)

  -- The read loop after `ReadMessage` fails: the goroutine ends, and only a connection that was
  -- still open is reported and scheduled for a reconnect.
  unfoldable pub read_error : Client F → Client F
  read_error c =
      let closed = record c { connected = false; readers = c.readers - 1 } in
      if c.connected
      then record closed {
        disconnected_calls = if c.wired then suc c.disconnected_calls else c.disconnected_calls;
        reconnects = suc c.reconnects;
      }
      else closed

  -- `scheduleReconnect` after its sleep; the goroutine ends with it.
  unfoldable pub schedule_reconnect : Dialer → Client F → Client F
  schedule_reconnect dial c =
      let woken = record c { reconnects = c.reconnects - 1 } in
      if woken.connected then woken else (connect dial woken).0
