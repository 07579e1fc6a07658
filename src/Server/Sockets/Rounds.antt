-- ===== src/Server/Sockets/Rounds.antt =====
-- The rounds of the writer of a session that is over.
use rom_go_app.Prelude.{
  ℕ, suc, ◌<◌, ◌≡◌, ◌∙◌, if_holds, refl, sym, ap, Bool, true, false, ◌⊎◌, Option, none, some, List,
  [], ◌∷◌, Float64, if◌then◌else◌, ◌==◌, arith, Bool-cases, inl, inr, subst,
}
use rom_go_app.Rosbridge.Codec.{Raw}
use rom_go_app.Hub.{subscribe}
use rom_go_app.Browser.{Command}
use rom_go_app.Browser.Writer.{Round, Loop, goes_on, returned}
use rom_go_app.Browser.Writer.Ends.{IsOver, run-IsOver, writer_round-Closer}
use rom_go_app.Server.{Env}
use rom_go_app.Server.Sockets.Safety.{step-Follows}
use rom_go_app.Server.Sockets.{
  Session, Site, Event, serves, opens, reads, writes, as_sessions, ws_handler, write_on,
  writer_turn, obey, read_round, reader_turn, step, run,
}

module _ {F : Type 0} where
  -- A round of the writer of `k`, and one of its reader.
  abbrev pub is_write : ℕ → Event F → Bool
  is_write k (writes j _ _ _) = j == k
  is_write k _ = false

  abbrev pub is_read : ℕ → Event F → Bool
  is_read k (reads _ j _) = j == k
  is_read k _ = false

  abbrev pub count : (Event F → Bool) → List (Event F) → ℕ
  count p [] = 0
  count p (e ∷ es) = let rest = count p es in if p e then suc rest else rest

  -- The web socket of `k` is closed, and so `ReadMessage` on it fails.
  abbrev pub FailsRead : ℕ → Event F → Type 0
  FailsRead k (reads _ j message) = (j == k) ≡ true → message ≡ none
  FailsRead k _ = Unit

module _ {F : Type 0} (fl : Float64 F) (decode : Raw → Option Command) where
  pub step-IsOver :
      (k n : ℕ) (e : Event F) (s : Site F)
      → IsOver k n (as_sessions s)
      → IsOver k n (as_sessions (step fl decode e s))
  step-IsOver k n e s v =
      let (events, same) = step-Follows fl decode e s in
      subst (IsOver k n) (sym same) (run-IsOver k n events (as_sessions s) v)

  pub obey-sessions :
      (env : Env F) (cmd : Option Command) (s : Site F)
      → (obey fl decode env cmd s).sessions ≡ s.sessions
  obey-sessions env none s = refl
  obey-sessions env (some cmd) s = refl

  read_round-writer :
      (env : Env F) (j k : ℕ) (message : Option Raw) (s : Site F)
      → ((read_round fl decode env j message s).sessions k).writer ≡ (s.sessions k).writer
  read_round-writer env j k none s = ground arith
  read_round-writer env j k (some message) s =
      ap (λ f. (f k).writer) (obey-sessions env (decode message) s)

  reader_turn-writer :
      (env : Env F) (j k : ℕ) (message : Option Raw) (s : Site F)
      → ((reader_turn fl decode env j message s).sessions k).writer ≡ (s.sessions k).writer
  unfolding reader_turn
  reader_turn-writer env j k message s =
      if_holds (λ (u : Site F). (u.sessions k).writer ≡ (s.sessions k).writer)
        (s.sessions j).reading (read_round-writer env j k message s) refl

  write_on-other :
      (j k : ℕ) (r : Round) (l : Loop) (s : Site F)
      → (j == k) ≡ false
      → (write_on j r l s).sessions k ≡ s.sessions k
  write_on-other j k r returned s e = refl
  write_on-other j k r (goes_on last) s e = ground arith

  -- What leaves the writer of `k` alone.
  other-writer :
      (k : ℕ) (e : Event F) (s : Site F)
      → k < s.manager.hub.next_chan
      → is_write k e ≡ false
      → ((step fl decode e s).sessions k).writer ≡ (s.sessions k).writer
  unfolding step ws_handler subscribe writer_turn
  other-writer k (serves env e) s made other = refl
  other-writer k (opens true) s made other = ground arith
  other-writer k (opens false) s made other = refl
  other-writer k (reads env j message) s made other = reader_turn-writer env j k message s
  other-writer k (writes j now takes_done written) s made other =
      ap (λ (x : Session). x.writer) (write_on-other j k _ (s.sessions j).writer s other)

  -- A round of the writer of `k`, which is over: it returns, or takes a message.
  write_on-own :
      (k n : ℕ) (r : Round) (l : Loop) (s : Site F)
      → l ≡ (s.sessions k).writer
      → IsOver k n (as_sessions s)
      → let s' = write_on k r l s in
        ((s'.sessions k).writer ≡ returned) ⊎ ((j : ℕ) × (j < n) × IsOver k j (as_sessions s'))
  write_on-own k n r returned s same v = inl (sym same)
  write_on-own k n r (goes_on last) s same v =
      elim (writer_round-Closer k n r last (as_sessions s) v) [
        | inl done ↦ inl (ground (arith, done))
        | inr (j, lt, over) ↦ inr (j, lt, over)
      ]

  own-writer :
      (k n : ℕ) (e : Event F) (s : Site F)
      → IsOver k n (as_sessions s)
      → is_write k e ≡ true
      → let s' = step fl decode e s in
        ((s'.sessions k).writer ≡ returned) ⊎ ((j : ℕ) × (j < n) × IsOver k j (as_sessions s'))
  unfolding step writer_turn
  own-writer k n (serves env e) s v own = absurd (ground arith)
  own-writer k n (opens upgraded) s v own = absurd (ground arith)
  own-writer k n (reads env j message) s v own = absurd (ground arith)
  own-writer k n (writes j now takes_done written) s v own =
      let r : Round = record { now = now; takes_done = takes_done; writes = written } in
      subst
        (λ i.
          let s' = write_on i r (s.sessions i).writer s in
          ((s'.sessions k).writer ≡ returned) ⊎ ((j : ℕ) × (j < n) × IsOver k j (as_sessions s')))
        (ground arith) (write_on-own k n r (s.sessions k).writer s refl v)

  write_on-returned :
      (j k : ℕ) (r : Round) (l : Loop) (s : Site F)
      → l ≡ (s.sessions j).writer
      → (s.sessions k).writer ≡ returned
      → ((write_on j r l s).sessions k).writer ≡ returned
  write_on-returned j k r returned s same done = done
  write_on-returned j k r (goes_on last) s same done = ground arith

  step-returned :
      (k : ℕ) (e : Event F) (s : Site F)
      → k < s.manager.hub.next_chan
      → (s.sessions k).writer ≡ returned
      → ((step fl decode e s).sessions k).writer ≡ returned
  unfolding step writer_turn
  step-returned k (serves env e) s made done = done
  step-returned k (opens upgraded) s made done = other-writer k (opens upgraded) s made refl ∙ done
  step-returned k (reads env j message) s made done = reader_turn-writer env j k message s ∙ done
  step-returned k (writes j now takes_done written) s made done =
      write_on-returned j k _ (s.sessions j).writer s refl done

  run-returned :
      (k n : ℕ) (es : List (Event F)) (s : Site F)
      → IsOver k n (as_sessions s)
      → (s.sessions k).writer ≡ returned
      → ((run fl decode es s).sessions k).writer ≡ returned
  unfolding run
  run-returned k n [] s v done = done
  run-returned k n (e ∷ es) s v done =
      run-returned k n es (step fl decode e s) (step-IsOver k n e s v)
        (step-returned k e s v.made done)

  pub run-writer :
      (k n : ℕ) (es : List (Event F)) (s : Site F)
      → IsOver k n (as_sessions s)
      → n < count (is_write k) es
      → ((run fl decode es s).sessions k).writer ≡ returned
  unfolding run
  run-writer k n [] s v enough = absurd (omega arith)
  run-writer k n (e ∷ es) s v enough =
      let next = step fl decode e s in
      elim (Bool-cases (is_write k e)) [
        | inl own ↦ elim (own-writer k n e s v own) [
          | inl done ↦ run-returned k n es next (step-IsOver k n e s v) done
          | inr (j, lt, over) ↦ run-writer k j es next over (ground arith)
        ]
        | inr other ↦ run-writer k n es next (step-IsOver k n e s v) (ground arith)
      ]
