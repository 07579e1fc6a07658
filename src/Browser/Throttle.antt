-- ===== src/Browser/Throttle.antt =====
-- What the writer of a session lets through.
use rom_go_app.Prelude.{
  ℕ, ◌+◌, ◌≤◌, ◌⊎◌, ◌≡◌, refl, Bool, true, false, not, ◌||◌, ◌++◌, Option, none, some, List, [],
  ◌∷◌, if◌then◌else◌, leb, ◌=?◌, arith, eq_iff, Bool-cases, inl, inr, ap, sym, subst, ◌∙◌,
}
use rom_go_app.Manager.{BroadcastMsg}
use rom_go_app.Browser.{
  map_interval, too_soon, forward, Pick, done_closed, channel_closed, takes, writer,
}

-- A map may be written at `now` if the last one was written an interval ago, or never.
abbrev pub Due : ℕ → Option ℕ → Type 0
Due now none = Unit
Due now (some last) = last + map_interval ≤ now

abbrev pub is_due : ℕ → Option ℕ → Bool
is_due now none = true
is_due now (some last) = leb (last + map_interval) now

too_soon-Due : (now : ℕ) (last : Option ℕ) → too_soon now last ≡ false → Due now last
too_soon-Due now none e = tt
too_soon-Due now (some last) e = ground arith

is_due-too_soon : (now : ℕ) (last : Option ℕ) → is_due now last ≡ not (too_soon now last)
is_due-too_soon now none = refl
is_due-too_soon now (some last) = ground arith

-- `written` is what comes first in `all`, and all of it unless something `broke`.
abbrev pub StartsWith {ℓ} : {A : Type ℓ} → Bool → List A → List A → Type ℓ
StartsWith {A = A} broke written all =
    (rest : List A) × (all ≡ written ++ rest) × ((rest ≡ []) ⊎ (broke ≡ true))

StartsWith-cons {ℓ} :
    {A : Type ℓ} (broke : Bool) (x : A) (written all : List A)
    → StartsWith broke written all
    → StartsWith broke (x ∷ written) (x ∷ all)
StartsWith-cons broke x written all (rest, e, or) = (rest, ap (◌∷◌ x) e, or)

-- Of a list, what is due after what was kept before, `last` being the time of that before the first.
abbrev pub throttled {ℓ} : {A : Type ℓ} → Option ℕ → List (ℕ × A) → List (ℕ × A)
throttled last [] = []
throttled last ((now, x) ∷ rounds) =
    if is_due now last then (now, x) ∷ throttled (some now) rounds else throttled last rounds

module _ {F : Type 0} where
  -- Each map in a list is due after the one before it; `last` is the time of the one before the first.
  abbrev pub Spaced : Option ℕ → List (ℕ × (BroadcastMsg F × Bool)) → Type 0
  Spaced last [] = Unit
  Spaced last ((now, (msg, _)) ∷ rounds) =
      (msg.kind ≡ "map" → Due now last)
      × Spaced (if msg.kind =? "map" then some now else last) rounds

  -- Nothing stands behind a write that failed.
  abbrev pub Stops : List (ℕ × (BroadcastMsg F × Bool)) → Type 0
  Stops [] = Unit
  Stops ((_, (_, true)) ∷ rounds) = Stops rounds
  Stops ((_, (_, false)) ∷ rounds) = rounds ≡ []

  abbrev pub broken : List (ℕ × (BroadcastMsg F × Bool)) → Bool
  broken [] = false
  broken ((_, (_, succeeds)) ∷ rounds) = not succeeds || broken rounds

  abbrev pub others : List (ℕ × (BroadcastMsg F × Bool)) → List (ℕ × (BroadcastMsg F × Bool))
  others [] = []
  others ((now, (msg, ok)) ∷ rounds) =
      if msg.kind =? "map" then others rounds else (now, (msg, ok)) ∷ others rounds

  abbrev pub maps : List (ℕ × (BroadcastMsg F × Bool)) → List (ℕ × (BroadcastMsg F × Bool))
  maps [] = []
  maps ((now, (msg, ok)) ∷ rounds) =
      if msg.kind =? "map" then (now, (msg, ok)) ∷ maps rounds else maps rounds

  -- The messages that are taken from the channel before `done` or the channel is closed.
  abbrev pub taken : List (Pick F) → List (ℕ × (BroadcastMsg F × Bool))
  taken [] = []
  taken (takes now msg ok ∷ rounds) = (now, (msg, ok)) ∷ taken rounds
  taken (done_closed ∷ _) = []
  taken (channel_closed ∷ _) = []

  -- What is written, of all that is taken.
  abbrev Forwards :
      Option ℕ → List (ℕ × (BroadcastMsg F × Bool)) → List (ℕ × (BroadcastMsg F × Bool)) → Type 0
  Forwards last written all =
      Spaced last written
      × Stops written
      × StartsWith (broken written) (others written) (others all)
      × StartsWith (broken written) (maps written) (throttled last (maps all))

  skipped-Forwards :
      (now : ℕ) (msg : BroadcastMsg F) (ok : Bool) (last : Option ℕ)
      (written all : List (ℕ × (BroadcastMsg F × Bool)))
      → (msg.kind =? "map") ≡ true
      → is_due now last ≡ false
      → Forwards last written all
      → Forwards last written ((now, (msg, ok)) ∷ all)
  skipped-Forwards now msg ok last written all map soon f = rw map (rw soon f)

  map-Forwards :
      (now : ℕ) (msg : BroadcastMsg F) (ok : Bool) (last : Option ℕ)
      (written all : List (ℕ × (BroadcastMsg F × Bool)))
      → (msg.kind =? "map") ≡ true
      → Due now last
      → is_due now last ≡ true
      → Forwards (some now) written all
      → Forwards last ((now, (msg, ok)) ∷ (if ok then written else [])) ((now, (msg, ok)) ∷ all)
  map-Forwards now msg true last written all map due is (spaced, stops, first, kept) = (
    (λ e. due, rw map spaced),
    stops,
    rw map first,
    rw map (rw is (StartsWith-cons _ (now, (msg, true)) _ _ kept)),
  )
  map-Forwards now msg false last written all map due is f = (
    (λ e. due, tt),
    refl,
    rw map (others all, refl, inr refl),
    rw map (rw is (throttled (some now) (maps all), refl, inr refl)),
  )

  other-Forwards :
      (now : ℕ) (msg : BroadcastMsg F) (ok : Bool) (last : Option ℕ)
      (written all : List (ℕ × (BroadcastMsg F × Bool)))
      → (msg.kind =? "map") ≡ false
      → Forwards last written all
      → Forwards last ((now, (msg, ok)) ∷ (if ok then written else [])) ((now, (msg, ok)) ∷ all)
  other-Forwards now msg true last written all other (spaced, stops, first, kept) = (
    (λ e. absurd (ground (arith, eq_iff msg.kind "map")), rw other spaced),
    stops,
    rw other (StartsWith-cons _ (now, (msg, true)) _ _ first),
    rw other kept,
  )
  other-Forwards now msg false last written all other f = (
    (λ e. absurd (ground (arith, eq_iff msg.kind "map")), tt),
    refl,
    rw other (others all, refl, inr refl),
    rw other (throttled last (maps all), refl, inr refl),
  )

  writer-map :
      (now : ℕ) (msg : BroadcastMsg F) (ok : Bool) (last : Option ℕ) (rounds : List (Pick F))
      → (msg.kind =? "map") ≡ true
      → writer last (takes now msg ok ∷ rounds) ≡ (
          if too_soon now last
          then writer last rounds
          else (now, (msg, ok)) ∷ (if ok then writer (some now) rounds else []))
  unfolding writer forward
  writer-map now msg ok last rounds map = elim (Bool-cases (too_soon now last)) [
    | inl soon ↦ rw (map, soon) refl
    | inr due ↦ rw (map, due) refl
  ]

  writer-other :
      (now : ℕ) (msg : BroadcastMsg F) (ok : Bool) (last : Option ℕ) (rounds : List (Pick F))
      → (msg.kind =? "map") ≡ false
      → writer last (takes now msg ok ∷ rounds)
        ≡ (now, (msg, ok)) ∷ (if ok then writer last rounds else [])
  unfolding writer forward
  writer-other now msg ok last rounds other = rw other refl

  maps-Forwards :
      (now : ℕ) (msg : BroadcastMsg F) (ok : Bool) (last : Option ℕ)
      (later sooner all : List (ℕ × (BroadcastMsg F × Bool)))
      → (msg.kind =? "map") ≡ true
      → Forwards last later all
      → Forwards (some now) sooner all
      → Forwards last
          (if too_soon now last then later else (now, (msg, ok)) ∷ (if ok then sooner else []))
          ((now, (msg, ok)) ∷ all)
  maps-Forwards now msg ok last later sooner all map skips writes =
      elim (Bool-cases (too_soon now last)) [
        | inl soon ↦ rw soon (
            skipped-Forwards now msg ok last later all map (is_due-too_soon now last ∙ ap not soon)
              skips)
        | inr due ↦ rw due (
            map-Forwards now msg ok last sooner all map (too_soon-Due now last due)
              (is_due-too_soon now last ∙ ap not due) writes)
      ]

  writer-Forwards :
      (last : Option ℕ) (rounds : List (Pick F)) → Forwards last (writer last rounds) (taken rounds)
  unfolding writer
  writer-Forwards last [] = (tt, tt, ([], refl, inl refl), ([], refl, inl refl))
  writer-Forwards last (done_closed ∷ rounds) = (tt, tt, ([], refl, inl refl), ([], refl, inl refl))
  writer-Forwards last (channel_closed ∷ rounds) =
      (tt, tt, ([], refl, inl refl), ([], refl, inl refl))
  writer-Forwards last (takes now msg ok ∷ rounds) = elim (Bool-cases (msg.kind =? "map")) [
    | inl map ↦
        subst (λ w. Forwards last w ((now, (msg, ok)) ∷ taken rounds))
          (sym (writer-map now msg ok last rounds map))
          (maps-Forwards now msg ok last (writer last rounds) (writer (some now) rounds)
            (taken rounds) map (writer-Forwards last rounds) (writer-Forwards (some now) rounds))
    | inr other ↦
        subst (λ w. Forwards last w ((now, (msg, ok)) ∷ taken rounds))
          (sym (writer-other now msg ok last rounds other))
          (other-Forwards now msg ok last (writer last rounds) (taken rounds) other
            (writer-Forwards last rounds))
  ]

  -- Whatever a session's writer goroutine takes from its channel and at whatever times. Two maps
  -- that it writes one after the other are taken half a second apart at least, and nothing is
  -- written after a write that failed. Of the messages taken before `done` or the channel is
  -- closed, it writes, in order, those that are not maps, and, in order, each map that is taken half
  -- a second or more after the map written before it, if there is one: all of these if no write
  -- fails, else the first of them.
  pub writer-Spaced :
      (last : Option ℕ) (rounds : List (Pick F))
      → let written = writer last rounds in
        Spaced last written
        × Stops written
        × StartsWith (broken written) (others written) (others (taken rounds))
        × StartsWith (broken written) (maps written) (throttled last (maps (taken rounds)))
  writer-Spaced last rounds = writer-Forwards last rounds
