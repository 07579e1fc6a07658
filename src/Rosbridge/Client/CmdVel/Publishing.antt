-- ===== src/Rosbridge/Client/CmdVel/Publishing.antt =====
-- What the velocity publisher sends over several ticks.
use rom_go_app.Prelude.{
  ◌≡◌, ◌≢◌, ◌∙◌, Bool, true, false, ◌&&◌, List, [], ◌∷◌, ◌++◌, Float64, arith, Bool-cases, inl, inr,
  eq_iff, ap, sym, map,
}
use mathlib.Core.List.{append-nil, append_assoc}
use rom_go_app.Rosbridge.Types.{TwistData}
use rom_go_app.Rosbridge.Protocol.{Json, publish_msg}
use rom_go_app.Rosbridge.Client.{Client, Network, send, is_some}
use rom_go_app.Rosbridge.Client.CmdVel.{twist_msg, same_cmd, publish_cmd_vel_tick}

-- A client whose publisher may send.
pub record IsDriving {F : Type 0} (c : Client F) : Type 0 where
  pub connected : c.connected ≡ true
  pub socket : is_some c.conn ≡ true
  pub enabled : c.cmd_vel_enabled ≡ true
  pub topic : c.topic_cmd_vel ≢ ""

abbrev changes_from {ℓ} : {A : Type ℓ} → Bool → A → List A → List A → List A
changes_from true t same other = same
changes_from false t same other = t ∷ other

-- Whether two commands are equal in the three components that a message carries.
abbrev pub same_parts : {F : Type 0} → Float64 F → TwistData F → TwistData F → Bool
same_parts fl t last =
    fl.eqb t.linear_x last.linear_x
    && (fl.eqb t.linear_y last.linear_y && fl.eqb t.angular_z last.angular_z)

module _ {F : Type 0} (fl : Float64 F) (net : Network F) where
  same_cmd_lem : (t last : TwistData F) → same_cmd fl t last ≡ same_parts fl t last
  unfolding same_cmd
  same_cmd_lem t last = ground arith

  tick_same :
      (c : Client F)
      → same_cmd fl c.desired_twist c.last_twist ≡ true
      → publish_cmd_vel_tick fl net c ≡ c
  unfolding publish_cmd_vel_tick
  tick_same c e = ground arith

  tick_changed :
      (c : Client F)
      → IsDriving c
      → same_cmd fl c.desired_twist c.last_twist ≡ false
      → publish_cmd_vel_tick fl net c ≡ record c {
        sent = c.sent ++ publish_msg c.topic_cmd_vel (twist_msg fl c.desired_twist) ∷ [];
        last_twist = c.desired_twist;
      }
  unfolding publish_cmd_vel_tick send
  tick_changed c d e = ground (arith, eq_iff c.topic_cmd_vel "")

  -- A second tick changes nothing if the desired command equals itself, which it does unless a
  -- component is NaN. The network's answer does not matter: a command whose write failed counts as
  -- published and is not sent again.
  pub tick-tick :
      (c : Client F)
      → same_cmd fl c.desired_twist c.desired_twist ≡ true
      → publish_cmd_vel_tick fl net (publish_cmd_vel_tick fl net c) ≡ publish_cmd_vel_tick fl net c
  unfolding publish_cmd_vel_tick send
  tick-tick c h = ground arith

  -- Ticks between which the desired command is set anew, from the first list item on.
  unfoldable pub drive_ticks : Client F → List (TwistData F) → Client F
  drive_ticks c [] = c
  drive_ticks c (t ∷ ts) =
      drive_ticks (publish_cmd_vel_tick fl net (record c { desired_twist = t })) ts

  -- The commands of a list that differ in a published component from the one published before,
  -- `last` being published before the first.
  unfoldable pub changes : TwistData F → List (TwistData F) → List (TwistData F)
  changes last [] = []
  changes last (t ∷ ts) = changes_from (same_parts fl t last) t (changes last ts) (changes t ts)

  -- A client that is connected by a socket, enabled and has a velocity topic is given a sequence
  -- of commands, with a tick after each: it hands over one message for each command that differs,
  -- in linear x, linear y or angular z, from the one published before it, in order, and no other.
  pub drive_ticks-sent :
      (c : Client F) (ts : List (TwistData F))
      → IsDriving c
      → (drive_ticks c ts).sent
        ≡ c.sent
          ++ map (λ t. publish_msg c.topic_cmd_vel (twist_msg fl t)) (changes c.last_twist ts)
  unfolding drive_ticks changes
  drive_ticks-sent c [] d = sym (append-nil c.sent)
  drive_ticks-sent c (t ∷ ts) d = elim (Bool-cases (same_parts fl t c.last_twist)) [
    | inl same ↦ rw same (
        ap (λ c'. (drive_ticks c' ts).sent) (tick_same asked (same_cmd_lem t c.last_twist ∙ same))
        ∙ drive_ticks-sent asked ts asked_drives)
    | inr other ↦ rw other (
        ap (λ c'. (drive_ticks c' ts).sent)
          (tick_changed asked asked_drives (same_cmd_lem t c.last_twist ∙ other))
        ∙ drive_ticks-sent told ts told_drives
        ∙ append_assoc c.sent (message t ∷ []) (map message (changes t ts)))
  ]
    where
      message : TwistData F → Json F
      message x = publish_msg c.topic_cmd_vel (twist_msg fl x)

      asked : Client F
      asked = record c { desired_twist = t }

      told : Client F
      told = record asked { sent = c.sent ++ message t ∷ []; last_twist = t }

      asked_drives : IsDriving asked
      asked_drives = record {
        connected = d.connected;
        socket = d.socket;
        enabled = d.enabled;
        topic = d.topic;
      }

      told_drives : IsDriving told
      told_drives = record {
        connected = d.connected;
        socket = d.socket;
        enabled = d.enabled;
        topic = d.topic;
      }
