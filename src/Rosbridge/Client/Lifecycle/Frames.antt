-- ===== src/Rosbridge/Client/Lifecycle/Frames.antt =====
-- The messages that a client hands to its sockets: requests of rosbridge, on its own namespace.
use rom_go_app.Prelude.{
  ◌≡◌, sym, ap, subst, String, ◌&&◌, List, [], ◌∷◌, ◌++◌, ◌+++◌, ◌⊎◌, inl, inr, All, if_holds,
  Bool-cases, ◌=?◌,
}
use rom_go_app.Rosbridge.Protocol.{
  Json, subscribe_msg, unsubscribe_msg, publish_msg, call_service_msg, type_occupancy_grid,
  type_twist, type_tf_message, type_odometry, type_laser_scan,
}
use rom_go_app.Rosbridge.Client.{Client, Network, send, is_some}
use rom_go_app.Rosbridge.Client.Topics.{
  subscribe_map, subscribe_cmd_vel, subscribe_tf, subscribe_odom, subscribe_controller_odom,
  subscribe_laser, subscribe_map_bfp, subscribe_all_topics, unsubscribe_each, unsubscribe_all,
}

-- A request of rosbridge on a topic or a service of the namespace.
pub data Frame {F : Type 0} (ns : String) : Json F → Type 0 where
  subscribes : (topic kind : String) → Frame ns (subscribe_msg (ns +++ topic) kind)
  unsubscribes : (topic : String) → Frame ns (unsubscribe_msg (ns +++ topic))
  publishes : (topic : String) (msg : Json F) → Frame ns (publish_msg (ns +++ topic) msg)
  calls :
      (service id : String) (args : Json F) → Frame ns (call_service_msg (ns +++ service) args id)

-- The part of a client that decides what it says, and what it has said.
pub record Voice (F : Type 0) : Type 0 where
  pub ns : String
  pub topics : List String
  pub sent : List (Json F)

-- A topic that is not set yet, or that lies in the namespace.
abbrev pub Named : String → String → Type 0
Named ns topic = (topic ≡ "") ⊎ ((s : String) × (topic ≡ ns +++ s))

named : (ns n topic : String) → n ≡ ns → Named ns (n +++ topic)
named ns n topic own = inr (topic, ap (λ (x : String). x +++ topic) own)

module _ {F : Type 0} where
  abbrev pub voice : Client F → Voice F
  voice c = record {
    ns = c.ns;
    topics =
        c.topic_map ∷ c.topic_cmd_vel ∷ c.topic_tf ∷ c.topic_odom ∷ c.topic_ctrl_odom
        ∷ c.topic_laser ∷ c.topic_map_bfp ∷ [];
    sent = c.sent;
  }

  abbrev pub Speaks : String → Client F → Type 0
  Speaks ns c = let v = voice c in (v.ns ≡ ns) × All (Named ns) v.topics × All (Frame ns) v.sent

  pub same-Speaks : (ns : String) (c d : Client F) → voice d ≡ voice c → Speaks ns c → Speaks ns d
  same-Speaks ns c d e v =
      subst (λ (x : Voice F). (x.ns ≡ ns) × All (Named ns) x.topics × All (Frame ns) x.sent) (sym e)
        v

  append-Frame :
      (ns : String) (m : Json F) (ms : List (Json F))
      → Frame ns m
      → All (Frame ns) ms
      → All (Frame ns) (ms ++ m ∷ [])
  append-Frame ns m [] f fs = (f, tt)
  append-Frame ns m (x ∷ ms) f (g, fs) = (g, append-Frame ns m ms f fs)

  pub send-Speaks :
      (ns : String) (net : Network F) (m : Json F) (c : Client F)
      → Frame ns m
      → Speaks ns c
      → Speaks ns (send net c m).0
  unfolding send
  send-Speaks ns net m c f v = elim (Bool-cases (c.connected && is_some c.conn)) [
    | inl up ↦ rw (up, send) (v.0, v.1, append-Frame ns m c.sent f v.2)
    | inr down ↦ rw (down, send) v
  ]

  -- The subscription to a topic, on a client that has taken its name over.
  subscribed :
      (ns : String) (net : Network F) (n topic kind : String) (c : Client F)
      → n ≡ ns
      → Speaks ns c
      → Speaks ns (send net c (subscribe_msg (n +++ topic) kind)).0
  subscribed ns net n topic kind c own = send-Speaks ns net _ c (
      subst (λ (x : String). Frame {F = F} ns (subscribe_msg (x +++ topic) kind)) (sym own)
        (subscribes topic kind))

module _ {F : Type 0} (ns : String) (net : Network F) where
  subscribe_map-Speaks : (c : Client F) → Speaks ns c → Speaks ns (subscribe_map net c "")
  unfolding subscribe_map
  subscribe_map-Speaks c (own, (_, (v, (t, (o, (k, (l, (b, _))))))), sent) =
      subscribed ns net c.ns _ type_occupancy_grid _ own
        (own, (named ns c.ns _ own, (v, (t, (o, (k, (l, (b, tt))))))), sent)

  subscribe_cmd_vel-Speaks : (c : Client F) → Speaks ns c → Speaks ns (subscribe_cmd_vel net c "")
  unfolding subscribe_cmd_vel
  subscribe_cmd_vel-Speaks c (own, (m, (_, (t, (o, (k, (l, (b, _))))))), sent) =
      subscribed ns net c.ns _ type_twist _ own
        (own, (m, (named ns c.ns _ own, (t, (o, (k, (l, (b, tt))))))), sent)

  subscribe_tf-Speaks : (c : Client F) → Speaks ns c → Speaks ns (subscribe_tf net c "")
  unfolding subscribe_tf
  subscribe_tf-Speaks c (own, (m, (v, (_, (o, (k, (l, (b, _))))))), sent) =
      subscribed ns net c.ns _ type_tf_message _ own
        (own, (m, (v, (named ns c.ns _ own, (o, (k, (l, (b, tt))))))), sent)

  subscribe_odom-Speaks : (c : Client F) → Speaks ns c → Speaks ns (subscribe_odom net c "")
  unfolding subscribe_odom
  subscribe_odom-Speaks c (own, (m, (v, (t, (_, (k, (l, (b, _))))))), sent) =
      subscribed ns net c.ns _ type_odometry _ own
        (own, (m, (v, (t, (named ns c.ns _ own, (k, (l, (b, tt))))))), sent)

  subscribe_controller_odom-Speaks :
      (c : Client F) → Speaks ns c → Speaks ns (subscribe_controller_odom net c "")
  unfolding subscribe_controller_odom
  subscribe_controller_odom-Speaks c (own, (m, (v, (t, (o, (_, (l, (b, _))))))), sent) =
      subscribed ns net c.ns _ type_odometry _ own
        (own, (m, (v, (t, (o, (named ns c.ns _ own, (l, (b, tt))))))), sent)

  subscribe_laser-Speaks : (c : Client F) → Speaks ns c → Speaks ns (subscribe_laser net c "")
  unfolding subscribe_laser
  subscribe_laser-Speaks c (own, (m, (v, (t, (o, (k, (_, (b, _))))))), sent) =
      subscribed ns net c.ns _ type_laser_scan _ own
        (own, (m, (v, (t, (o, (k, (named ns c.ns _ own, (b, tt))))))), sent)

  subscribe_map_bfp-Speaks : (c : Client F) → Speaks ns c → Speaks ns (subscribe_map_bfp net c "")
  unfolding subscribe_map_bfp
  subscribe_map_bfp-Speaks c (own, (m, (v, (t, (o, (k, (l, (_, _))))))), sent) =
      subscribed ns net c.ns _ "" _ own
        (own, (m, (v, (t, (o, (k, (l, (named ns c.ns _ own, tt))))))), sent)

  pub subscribe_all_topics-Speaks :
      (c : Client F) → Speaks ns c → Speaks ns (subscribe_all_topics net c)
  unfolding subscribe_all_topics
  subscribe_all_topics-Speaks c v = subscribe_cmd_vel-Speaks _ (
      subscribe_map_bfp-Speaks _ (
        subscribe_laser-Speaks _ (
          subscribe_controller_odom-Speaks _
            (subscribe_odom-Speaks _ (subscribe_tf-Speaks _ (subscribe_map-Speaks c v))))))

  unsubscribe_each-Speaks :
      (topics : List String) (c : Client F)
      → All (Named ns) topics
      → Speaks ns c
      → Speaks ns (unsubscribe_each net topics c)
  unfolding unsubscribe_each
  unsubscribe_each-Speaks [] c h v = v
  unsubscribe_each-Speaks (t ∷ topics) c (inl empty, h) v =
      unsubscribe_each-Speaks topics _ h (rw empty v)
  unsubscribe_each-Speaks (t ∷ topics) c (inr (s, e), h) v = unsubscribe_each-Speaks topics _ h (
      if_holds (Speaks ns) (t =? "") v (
        send-Speaks ns net (unsubscribe_msg t) c
          (subst (λ (x : String). Frame {F = F} ns (unsubscribe_msg x)) (sym e) (unsubscribes s))
          v))

  pub unsubscribe_all-Speaks : (c : Client F) → Speaks ns c → Speaks ns (unsubscribe_all net c)
  unfolding unsubscribe_all
  unsubscribe_all-Speaks c v = unsubscribe_each-Speaks _ c v.1 v
