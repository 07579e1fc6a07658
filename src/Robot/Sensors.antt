-- ===== src/Robot/Sensors.antt =====
-- The rates of the sensors.
use native.Mathlib.Nat.{div-mul-le_self, lt-div-mul-add}
use rom_go_app.Prelude.{ℕ, ◌+◌, ◌-◌, ◌*◌, ◌<◌, ◌≤◌, ◌≡◌, refl, none, some, arith, ltb, lt→ltb, true}
use rom_go_app.Robot.{measure_hz, second}

rate_above :
    (now last : ℕ) → last < now → second < ((measure_hz now (some last)).1 + 1) * (now - last)
unfolding measure_hz
rate_above now last h =
    let positive : ltb 0 (now - last) ≡ true = lt→ltb 0 (now - last) (omega arith) in
    rw positive (omega (arith, lt-div-mul-add {a = second} {b = now - last} (omega arith)))

-- The first measurement gives 0, and so does one at which the clock has not moved on. Otherwise the
-- rate is the number of whole intervals in a second; the time is stored in each case.
pub measure_hz_lem :
    (now last : ℕ)
    → ((measure_hz now none) ≡ (some now, 0))
      × ((measure_hz now (some last)).0 ≡ some now)
      × (now ≤ last → (measure_hz now (some last)).1 ≡ 0)
      × (last < now
          → let hz = (measure_hz now (some last)).1 in
            (hz * (now - last) ≤ second) × (second < (hz + 1) * (now - last)))
unfolding measure_hz
measure_hz_lem now last = (
  refl,
  refl,
  λ h. ground arith,
  λ h. (ground (arith, div-mul-le_self second (now - last)), rate_above now last h),
)
