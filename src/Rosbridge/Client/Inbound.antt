-- ===== src/Rosbridge/Client/Inbound.antt =====
-- rosbridge/client.go: what the read loop does with one message.
pub mod Routing
use rom_go_app.Prelude.{String, Option, none, some, true, false, Float64, if◌then◌else◌, ◌=?◌}
use rom_go_app.Rosbridge.Codec.{Raw, Codec, Envelope}
use rom_go_app.Rosbridge.Client.{Client}
use rom_go_app.Rosbridge.Client.Services.{Delivery, handle_service_response}
use rom_go_app.Rosbridge.Client.Parsers.{
  Callback, parse_map, parse_twist, parse_tf, parse_odom, parse_laser, parse_map_bfp,
}

-- The end of one round of the read loop: nothing more, a callback, or the fate of a response.
pub data Handled (F : Type 0) : Type 0 where
  ignored : Handled F
  published : Option (Callback F) → Handled F
  responded : Delivery → Handled F

module _ {F : Type 0} (fl : Float64 F) (codec : Codec F) where
  unfoldable pub handle_publish : String → Raw → Client F → Client F × Option (Callback F)
  handle_publish topic msg c =
      if topic =? c.topic_map
      then (c, parse_map codec msg c)
      else if topic =? c.topic_cmd_vel
      then (c, parse_twist codec msg c)
      else if topic =? c.topic_tf
      then parse_tf fl codec msg c
      else if topic =? c.topic_odom
      then (c, parse_odom fl codec msg false c)
      else if topic =? c.topic_ctrl_odom
      then (c, parse_odom fl codec msg true c)
      else if topic =? c.topic_laser
      then (c, parse_laser codec msg c)
      else if topic =? c.topic_map_bfp
      then (c, parse_map_bfp codec msg c)
      else (c, none)

  abbrev pub dispatch : Envelope → Raw → Client F → Client F × Handled F
  dispatch e raw c =
      if e.op =? "publish"
      then (let (after, callback) = handle_publish e.topic e.msg c in (after, published callback))
      else if e.op =? "service_response"
      then (let (after, fate) = handle_service_response e.id raw c in (after, responded fate))
      else (c, ignored)

  unfoldable pub handle_message : Raw → Client F → Client F × Handled F
  handle_message raw c = elim (codec.envelope raw) [
    | none ↦ (c, ignored)
    | some e ↦ dispatch e raw c
  ]
