-- ===== src/Robot/History.antt =====
-- The velocity history of a robot.
use mathlib.Core.List.{append_assoc, append-nil}
use rom_go_app.Prelude.{
  ℕ, ◌+◌, ◌-◌, ◌≤◌, ◌≡◌, refl, sym, ap, ◌∙◌, String, List, [], ◌∷◌, ◌++◌, Float64, arith, ltb,
  length, drop, length-append, take_last, take_last-append, length-take_last-le, ltb→lt, ap₂,
  Bool-cases, inl, inr,
}
use rom_go_app.Rosbridge.Types.{TwistData}
use rom_go_app.Rosbridge.Client.Parsers.{on_twist}
use rom_go_app.Robot.{Robot, new_robot, on_callback, on_twist_callback}

module _ {F : Type 0} where
  -- The messages on the velocity topic, at the times that come with them.
  unfoldable pub receive_twists : List (ℕ × TwistData F) → Robot F → Robot F
  receive_twists [] r = r
  receive_twists ((now, t) ∷ ts) r = receive_twists ts (on_callback now (on_twist t) r)

  abbrev pub twists : List (ℕ × TwistData F) → List (TwistData F)
  twists [] = []
  twists ((now, t) ∷ ts) = t ∷ twists ts

  on_twist-history :
      (now : ℕ) (t : TwistData F) (r : Robot F)
      → length r.velocity_history ≤ r.max_history
      → (on_callback now (on_twist t) r).velocity_history
        ≡ take_last r.max_history (r.velocity_history ++ t ∷ [])
  unfolding on_callback on_twist_callback
  on_twist-history now t r h = elim (Bool-cases (ltb r.max_history (length longer))) [
    | inl over ↦ rw over (
        ap (λ k. drop k longer)
          (let one : 1 ≡ length longer - r.max_history =
              omega (arith, ltb→lt r.max_history (length longer) over, grown) in
            one))
    | inr fits ↦ rw fits (
        ap (λ k. drop k longer)
          (let none_over : 0 ≡ length longer - r.max_history = ground arith in none_over))
  ]
    where
      longer : List (TwistData F)
      longer = r.velocity_history ++ t ∷ []

      grown : length longer ≡ length r.velocity_history + 1
      grown = length-append r.velocity_history (t ∷ [])

  on_twist-max_history :
      (now : ℕ) (t : TwistData F) (r : Robot F)
      → (on_callback now (on_twist t) r).max_history ≡ r.max_history
  unfolding on_callback on_twist_callback
  on_twist-max_history now t r = refl

  history_lem :
      (ts : List (ℕ × TwistData F)) (r : Robot F)
      → length r.velocity_history ≤ r.max_history
      → (receive_twists ts r).velocity_history
        ≡ take_last r.max_history (r.velocity_history ++ twists ts)
  unfolding receive_twists
  history_lem [] r h =
      ap (λ k. drop k r.velocity_history)
        (let none_over : 0 ≡ length r.velocity_history - r.max_history = omega arith in none_over)
      ∙ ap (take_last r.max_history) (sym (append-nil r.velocity_history))
  history_lem ((now, t) ∷ ts) r h =
      let r' = on_callback now (on_twist t) r in
      let step = on_twist-history now t r h in
      let max = on_twist-max_history now t r in
      history_lem ts r' (rw (max, step) (length-take_last-le r.max_history _))
      ∙ ap₂ (λ n l. take_last n (l ++ twists ts)) max step
      ∙ take_last-append r.max_history (r.velocity_history ++ t ∷ []) (twists ts)
      ∙ ap (take_last r.max_history) (append_assoc r.velocity_history (t ∷ []) (twists ts))

  -- However many velocity messages a new robot receives, its history holds the last hundred of them,
  -- oldest first, or all of them if there are fewer, and so never more than a hundred.
  pub new_robot-history :
      (fl : Float64 F) (id ns name ip : String) (port : ℕ) (ts : List (ℕ × TwistData F))
      → let h = (receive_twists ts (new_robot fl id ns name ip port)).velocity_history in
        (h ≡ take_last 100 (twists ts)) × (length h ≤ 100)
  unfolding new_robot
  new_robot-history fl id ns name ip port ts =
      let e = history_lem ts (new_robot fl id ns name ip port) (omega arith) in
      (e, rw e (length-take_last-le 100 (twists ts)))
