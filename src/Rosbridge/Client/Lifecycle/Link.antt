-- ===== src/Rosbridge/Client/Lifecycle/Link.antt =====
-- The part of a client that says where it connects to, whether it is connected and what runs for it. The operations on
-- topics, messages and services leave it alone.
use rom_go_app.Prelude.{
  ℕ, String, Bool, Option, List, [], ◌∷◌, Float64, arith, ◌≡◌, refl, ◌∙◌, inl, inr, ◌=?◌,
  if◌then◌else◌, Bool-cases, Option-cases,
}
use rom_go_app.Rosbridge.Protocol.{Json, unsubscribe_msg, publish_msg}
use rom_go_app.Rosbridge.Codec.{Raw, Codec, Envelope}
use rom_go_app.Rosbridge.Client.{Client, Network, Ticker, send}
use rom_go_app.Rosbridge.Client.Topics.{
  subscribe_map, subscribe_cmd_vel, subscribe_tf, subscribe_odom, subscribe_controller_odom,
  subscribe_laser, subscribe_map_bfp, subscribe_all_topics, unsubscribe_each, unsubscribe_all,
}
use rom_go_app.Rosbridge.Client.CmdVel.{publish_cmd_vel_tick, twist_msg}
use rom_go_app.Rosbridge.Client.Services.{handle_service_response}
use rom_go_app.Rosbridge.Client.Parsers.{parse_tf}
use rom_go_app.Rosbridge.Client.Inbound.{dispatch, handle_publish, handle_message}

pub record Link : Type 0 where
  pub host : String
  pub port : ℕ
  pub connected : Bool
  pub conn : Option ℕ
  pub cmd_vel_ticker : Ticker
  pub readers : ℕ
  pub publishers : ℕ
  pub reconnects : ℕ

module _ {F : Type 0} where
  abbrev pub link : Client F → Link
  link c = record {
    host = c.host;
    port = c.port;
    connected = c.connected;
    conn = c.conn;
    cmd_vel_ticker = c.cmd_vel_ticker;
    readers = c.readers;
    publishers = c.publishers;
    reconnects = c.reconnects;
  }

  pub link-send : (net : Network F) (c : Client F) (m : Json F) → link (send net c m).0 ≡ link c
  unfolding send
  link-send net c m = ground arith

  pub link-subscribe_all_topics :
      (net : Network F) (c : Client F) → link (subscribe_all_topics net c) ≡ link c
  unfolding subscribe_all_topics subscribe_map subscribe_cmd_vel subscribe_tf subscribe_odom
      subscribe_controller_odom subscribe_laser subscribe_map_bfp
  link-subscribe_all_topics net c = simp link-send

  link-unsubscribe_each :
      (net : Network F) (topics : List String) (c : Client F)
      → link (unsubscribe_each net topics c) ≡ link c
  unfolding unsubscribe_each
  link-unsubscribe_each net [] c = refl
  link-unsubscribe_each net (t ∷ topics) c =
      link-unsubscribe_each net topics (if t =? "" then c else (send net c (unsubscribe_msg t)).0)
      ∙ ground (arith, link-send net c (unsubscribe_msg t))

  pub link-unsubscribe_all :
      (net : Network F) (c : Client F) → link (unsubscribe_all net c) ≡ link c
  unfolding unsubscribe_all
  link-unsubscribe_all net c = link-unsubscribe_each net _ c

  pub link-publish_cmd_vel_tick :
      (fl : Float64 F) (net : Network F) (c : Client F)
      → link (publish_cmd_vel_tick fl net c) ≡ link c
  unfolding publish_cmd_vel_tick
  link-publish_cmd_vel_tick fl net c =
      ground (arith, link-send net c (publish_msg c.topic_cmd_vel (twist_msg fl c.desired_twist)))

  link-handle_service_response :
      (id : String) (raw : Raw) (c : Client F) → link (handle_service_response id raw c).0 ≡ link c
  unfolding handle_service_response
  link-handle_service_response id raw c = ground arith

  link-parse_tf :
      (fl : Float64 F) (codec : Codec F) (msg : Raw) (c : Client F)
      → link (parse_tf fl codec msg c).0 ≡ link c
  unfolding parse_tf
  link-parse_tf fl codec msg c = elim (Bool-cases c.wired) [
    | inl set ↦ elim (Option-cases (codec.transforms msg)) [
      | inl e ↦ rw (set, e) refl
      | inr (ts, e) ↦ rw (set, e) refl
    ]
    | inr unset ↦ rw unset refl
  ]

  link-handle_publish :
      (fl : Float64 F) (codec : Codec F) (topic : String) (msg : Raw) (c : Client F)
      → link (handle_publish fl codec topic msg c).0 ≡ link c
  unfolding handle_publish
  link-handle_publish fl codec topic msg c = ground (arith, link-parse_tf fl codec msg c)

  link-dispatch :
      (fl : Float64 F) (codec : Codec F) (e : Envelope) (raw : Raw) (c : Client F)
      → link (dispatch fl codec e raw c).0 ≡ link c
  link-dispatch fl codec e raw c = elim (Bool-cases (e.op =? "publish")) [
    | inl published ↦ rw published (link-handle_publish fl codec e.topic e.msg c)
    | inr other ↦ rw other (elim (Bool-cases (e.op =? "service_response")) [
      | inl response ↦ rw response (link-handle_service_response e.id raw c)
      | inr neither ↦ rw neither refl
    ])
  ]

  pub link-handle_message :
      (fl : Float64 F) (codec : Codec F) (raw : Raw) (c : Client F)
      → link (handle_message fl codec raw c).0 ≡ link c
  unfolding handle_message
  link-handle_message fl codec raw c = elim (Option-cases (codec.envelope raw)) [
    | inl e ↦ rw (e, handle_message) refl
    | inr (envelope, e) ↦ rw (e, handle_message) (link-dispatch fl codec envelope raw c)
  ]
