-- ===== src/Rosbridge/Client/Lifecycle/Steps.antt =====
-- rosbridge/client.go: the life of a connection. The goroutines of a client take turns in any order;
-- an event is one turn, and its data are what the outside world decides. A turn of a goroutine that
-- does not run changes nothing.
use rom_go_app.Prelude.{◌-◌, Bool, true, List, [], ◌∷◌, Float64, if◌then◌else◌, ◌==◌}
use rom_go_app.Rosbridge.Types.{TwistData}
use rom_go_app.Rosbridge.Protocol.{Json}
use rom_go_app.Rosbridge.Codec.{Raw, Codec}
use rom_go_app.Rosbridge.Client.{
  Client, Dialer, Network, no_ticker, ticking, stopped, connect, disconnect, send, read_error,
  schedule_reconnect,
}
use rom_go_app.Rosbridge.Client.CmdVel.{
  publish_cmd_vel_tick, set_desired_cmd_vel, set_cmd_vel_enabled,
}
use rom_go_app.Rosbridge.Client.Topics.{subscribe_all_topics, unsubscribe_all}
use rom_go_app.Rosbridge.Client.Inbound.{handle_message}

pub data Event (F : Type 0) : Type 0 where
  connects : Dialer → Event F
  disconnects : Bool → Event F
  read_fails : Event F
  receives : Raw → Event F
  reconnect_fires : Dialer → Event F
  connected_runs : Event F
  publisher_ticks : Event F
  sends : Json F → Event F
  drives : TwistData F → Event F
  unsubscribes : Event F

module _ {F : Type 0} (fl : Float64 F) (codec : Codec F) (net : Network F) where
  -- A `select` of the publisher that gets a tick; a ticker that is stopped sends none.
  unfoldable pub publisher_turn : Client F → Client F
  publisher_turn c = elim c.cmd_vel_ticker [
    | no_ticker ↦ c
    | ticking ↦ if c.publishers == 0 then c else publish_cmd_vel_tick fl net c
    | stopped ↦ c
  ]

  -- The goroutine of the callback `OnConnected`.
  unfoldable pub connected_turn : Client F → Client F
  connected_turn c =
      if c.connected_calls == 0
      then c
      else set_cmd_vel_enabled
          (subscribe_all_topics net (record c { connected_calls = c.connected_calls - 1 })) true

  unfoldable pub step : Client F → Event F → Client F
  step c (connects dial) = (connect dial c).0
  step c (disconnects stop_taken) = disconnect stop_taken c
  step c read_fails = if c.readers == 0 then c else read_error c
  step c (receives raw) = if c.readers == 0 then c else (handle_message fl codec raw c).0
  step c (reconnect_fires dial) = if c.reconnects == 0 then c else schedule_reconnect dial c
  step c connected_runs = connected_turn c
  step c publisher_ticks = publisher_turn c
  step c (sends m) = (send net c m).0
  step c (drives twist) = set_desired_cmd_vel c twist
  step c unsubscribes = unsubscribe_all net c

  unfoldable pub run : Client F → List (Event F) → Client F
  unfolding step
  run c [] = c
  run c (e ∷ es) = run (step c e) es
