-- ===== src/Rosbridge/Client/Inbound/Routing.antt =====
-- Which parser a published message reaches.
use text.Mathlib.TextLemmas.{append_cancel_left}
use rom_go_app.Prelude.{
  ◌≡◌, refl, true, false, arith, String, eq_iff, eq_refl, ap, ◌∙◌, ◌+++◌, ◌=?◌, =?-false, Float64,
}
use rom_go_app.Rosbridge.Codec.{Raw, Codec}
use rom_go_app.Rosbridge.Client.{Client, Network, send}
use rom_go_app.Rosbridge.Client.Topics.{
  subscribe_map, subscribe_cmd_vel, subscribe_tf, subscribe_odom, subscribe_controller_odom,
  subscribe_laser, subscribe_map_bfp, subscribe_all_topics,
}
use rom_go_app.Rosbridge.Client.Parsers.{
  parse_map, parse_twist, parse_tf, parse_odom, parse_laser, parse_map_bfp,
}
use rom_go_app.Rosbridge.Client.Inbound.{handle_publish}

-- The names that a client's messages go by.
pub record Names : Type 0 where
  pub ns : String
  pub map : String
  pub tf : String
  pub odom : String
  pub ctrl_odom : String
  pub laser : String
  pub map_bfp : String
  pub cmd_vel : String

abbrev pub names : {F : Type 0} → Client F → Names
names c = record {
  ns = c.ns;
  map = c.topic_map;
  tf = c.topic_tf;
  odom = c.topic_odom;
  ctrl_odom = c.topic_ctrl_odom;
  laser = c.topic_laser;
  map_bfp = c.topic_map_bfp;
  cmd_vel = c.topic_cmd_vel;
}

-- The names of a client that has subscribed to the default topics under a namespace.
abbrev pub default_names : String → Names
default_names ns = record {
  ns = ns;
  map = ns +++ "/map";
  tf = ns +++ "/tf";
  odom = ns +++ "/odom";
  ctrl_odom = ns +++ "/diff_controller/odom";
  laser = ns +++ "/scan";
  map_bfp = ns +++ "/map_bfp_publisher";
  cmd_vel = ns +++ "/diff_controller/cmd_vel_unstamped";
}

-- Two names under one namespace differ as the names do.
differ : (ns s t : String) → (s =? t) ≡ false → ((ns +++ s) =? (ns +++ t)) ≡ false
differ ns s t h =
    =?-false (ns +++ s) (ns +++ t) (λ e. ground (arith, eq_iff s t, append_cancel_left ns s t e))

miss : (ns s t x : String) → x ≡ ns +++ t → (s =? t) ≡ false → ((ns +++ s) =? x) ≡ false
miss ns s t x e h = rw e (differ ns s t h)

hit : (ns s x : String) → x ≡ ns +++ s → ((ns +++ s) =? x) ≡ true
hit ns s x e = rw e (eq_refl (ns +++ s))

module _ {F : Type 0} where
  names-subscribe_map :
      (net : Network F) (c : Client F)
      → names (subscribe_map net c "") ≡ record (names c) { map = c.ns +++ "/map" }
  unfolding subscribe_map send
  names-subscribe_map net c = ground arith

  names-subscribe_tf :
      (net : Network F) (c : Client F)
      → names (subscribe_tf net c "") ≡ record (names c) { tf = c.ns +++ "/tf" }
  unfolding subscribe_tf send
  names-subscribe_tf net c = ground arith

  names-subscribe_odom :
      (net : Network F) (c : Client F)
      → names (subscribe_odom net c "") ≡ record (names c) { odom = c.ns +++ "/odom" }
  unfolding subscribe_odom send
  names-subscribe_odom net c = ground arith

  names-subscribe_controller_odom :
      (net : Network F) (c : Client F)
      → names (subscribe_controller_odom net c "")
        ≡ record (names c) { ctrl_odom = c.ns +++ "/diff_controller/odom" }
  unfolding subscribe_controller_odom send
  names-subscribe_controller_odom net c = ground arith

  names-subscribe_laser :
      (net : Network F) (c : Client F)
      → names (subscribe_laser net c "") ≡ record (names c) { laser = c.ns +++ "/scan" }
  unfolding subscribe_laser send
  names-subscribe_laser net c = ground arith

  names-subscribe_map_bfp :
      (net : Network F) (c : Client F)
      → names (subscribe_map_bfp net c "")
        ≡ record (names c) { map_bfp = c.ns +++ "/map_bfp_publisher" }
  unfolding subscribe_map_bfp send
  names-subscribe_map_bfp net c = ground arith

  names-subscribe_cmd_vel :
      (net : Network F) (c : Client F)
      → names (subscribe_cmd_vel net c "")
        ≡ record (names c) { cmd_vel = c.ns +++ "/diff_controller/cmd_vel_unstamped" }
  unfolding subscribe_cmd_vel send
  names-subscribe_cmd_vel net c = ground arith

  -- Each subscription sets its own name and leaves the others.
  names-subscribe_all_topics :
      (net : Network F) (c : Client F) → names (subscribe_all_topics net c) ≡ default_names c.ns
  unfolding subscribe_all_topics
  names-subscribe_all_topics net c =
      let c1 = subscribe_map net c "" in
      let c2 = subscribe_tf net c1 "" in
      let c3 = subscribe_odom net c2 "" in
      let c4 = subscribe_controller_odom net c3 "" in
      let c5 = subscribe_laser net c4 "" in
      let c6 = subscribe_map_bfp net c5 "" in
      let e1 = names-subscribe_map net c in
      let e2 =
        names-subscribe_tf net c1 ∙ ap (λ (n : Names). record n { tf = n.ns +++ "/tf" }) e1 in
      let e3 =
        names-subscribe_odom net c2 ∙ ap (λ (n : Names). record n { odom = n.ns +++ "/odom" }) e2 in
      let e4 =
        names-subscribe_controller_odom net c3
        ∙ ap (λ (n : Names). record n { ctrl_odom = n.ns +++ "/diff_controller/odom" }) e3 in
      let e5 =
        names-subscribe_laser net c4
        ∙ ap (λ (n : Names). record n { laser = n.ns +++ "/scan" }) e4 in
      let e6 =
        names-subscribe_map_bfp net c5
        ∙ ap (λ (n : Names). record n { map_bfp = n.ns +++ "/map_bfp_publisher" }) e5 in
      names-subscribe_cmd_vel net c6
      ∙ ap (λ (n : Names). record n { cmd_vel = n.ns +++ "/diff_controller/cmd_vel_unstamped" }) e6

  -- After the subscription to the default topics, a message on each of them reaches its own parser,
  -- the odometry of the controller apart from that of the robot.
  pub subscribed_routes :
      (fl : Float64 F) (codec : Codec F) (net : Network F) (msg : Raw) (c : Client F)
      → let d = subscribe_all_topics net c in
        let route = λ (name : String). handle_publish fl codec (c.ns +++ name) msg d in
        (route "/map" ≡ (d, parse_map codec msg d))
        × (route "/diff_controller/cmd_vel_unstamped" ≡ (d, parse_twist codec msg d))
        × (route "/tf" ≡ parse_tf fl codec msg d)
        × (route "/odom" ≡ (d, parse_odom fl codec msg false d))
        × (route "/diff_controller/odom" ≡ (d, parse_odom fl codec msg true d))
        × (route "/scan" ≡ (d, parse_laser codec msg d))
        × (route "/map_bfp_publisher" ≡ (d, parse_map_bfp codec msg d))
  unfolding handle_publish
  subscribed_routes fl codec net msg c =
      let d = subscribe_all_topics net c in
      let e = names-subscribe_all_topics net c in
      let ns = c.ns in
      let map : d.topic_map ≡ ns +++ "/map" = ap (λ (n : Names). n.map) e in
      let cmd_vel : d.topic_cmd_vel ≡ ns +++ "/diff_controller/cmd_vel_unstamped" =
        ap (λ (n : Names). n.cmd_vel) e in
      let tf : d.topic_tf ≡ ns +++ "/tf" = ap (λ (n : Names). n.tf) e in
      let odom : d.topic_odom ≡ ns +++ "/odom" = ap (λ (n : Names). n.odom) e in
      let ctrl_odom : d.topic_ctrl_odom ≡ ns +++ "/diff_controller/odom" =
        ap (λ (n : Names). n.ctrl_odom) e in
      let laser : d.topic_laser ≡ ns +++ "/scan" = ap (λ (n : Names). n.laser) e in
      let map_bfp : d.topic_map_bfp ≡ ns +++ "/map_bfp_publisher" =
        ap (λ (n : Names). n.map_bfp) e in
      (
        ground (arith, hit ns "/map" d.topic_map map),
        ground (
          arith,
          miss ns "/diff_controller/cmd_vel_unstamped" "/map" d.topic_map map refl,
          hit ns "/diff_controller/cmd_vel_unstamped" d.topic_cmd_vel cmd_vel,
        ),
        ground (
          arith,
          miss ns "/tf" "/map" d.topic_map map refl,
          miss ns "/tf" "/diff_controller/cmd_vel_unstamped" d.topic_cmd_vel cmd_vel refl,
          hit ns "/tf" d.topic_tf tf,
        ),
        ground (
          arith,
          miss ns "/odom" "/map" d.topic_map map refl,
          miss ns "/odom" "/diff_controller/cmd_vel_unstamped" d.topic_cmd_vel cmd_vel refl,
          miss ns "/odom" "/tf" d.topic_tf tf refl,
          hit ns "/odom" d.topic_odom odom,
        ),
        ground (
          arith,
          miss ns "/diff_controller/odom" "/map" d.topic_map map refl,
          miss ns "/diff_controller/odom" "/diff_controller/cmd_vel_unstamped" d.topic_cmd_vel
              cmd_vel refl,
          miss ns "/diff_controller/odom" "/tf" d.topic_tf tf refl,
          miss ns "/diff_controller/odom" "/odom" d.topic_odom odom refl,
          hit ns "/diff_controller/odom" d.topic_ctrl_odom ctrl_odom,
        ),
        ground (
          arith,
          miss ns "/scan" "/map" d.topic_map map refl,
          miss ns "/scan" "/diff_controller/cmd_vel_unstamped" d.topic_cmd_vel cmd_vel refl,
          miss ns "/scan" "/tf" d.topic_tf tf refl,
          miss ns "/scan" "/odom" d.topic_odom odom refl,
          miss ns "/scan" "/diff_controller/odom" d.topic_ctrl_odom ctrl_odom refl,
          hit ns "/scan" d.topic_laser laser,
        ),
        ground (
          arith,
          miss ns "/map_bfp_publisher" "/map" d.topic_map map refl,
          miss ns "/map_bfp_publisher" "/diff_controller/cmd_vel_unstamped" d.topic_cmd_vel cmd_vel
              refl,
          miss ns "/map_bfp_publisher" "/tf" d.topic_tf tf refl,
          miss ns "/map_bfp_publisher" "/odom" d.topic_odom odom refl,
          miss ns "/map_bfp_publisher" "/diff_controller/odom" d.topic_ctrl_odom ctrl_odom refl,
          miss ns "/map_bfp_publisher" "/scan" d.topic_laser laser refl,
          hit ns "/map_bfp_publisher" d.topic_map_bfp map_bfp,
        ),
      )
