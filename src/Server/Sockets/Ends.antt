-- ===== src/Server/Sockets/Ends.antt =====
-- A session of which one goroutine has returned ends as a whole.
use rom_go_app.Prelude.{
  ℕ, ◌<◌, ◌≡◌, ◌∙◌, if_holds, refl, sym, ap, true, false, ◌⊎◌, Option, none, some, List, [], ◌∷◌,
  Float64, All, arith, Bool-cases, inl, inr, subst,
}
use rom_go_app.Rosbridge.Codec.{Raw}
use rom_go_app.Hub.{capacity, contains, subscribe, empty_hub}
use rom_go_app.Hub.Sessions.{no_sessions}
use rom_go_app.Manager.{new_manager}
use rom_go_app.Browser.{Command}
use rom_go_app.Browser.Writer.{Round, Loop, goes_on, returned}
use rom_go_app.Browser.Writer.Ends.{IsOver}
use rom_go_app.Server.{Env}
use rom_go_app.Server.Sockets.Manned.{live-Loops}
use rom_go_app.Server.Sockets.Safety.{run-Follows, run-IsConsistent}
use rom_go_app.Server.Sockets.{
  Site, Event, serves, opens, reads, writes, as_sessions, start_site, ws_handler, write_on,
  writer_turn, read_round, reader_turn, step, run,
}
use rom_go_app.Server.Sockets.Shut.{IsShut, run-IsShut}
use rom_go_app.Server.Sockets.Rounds.{
  is_write, is_read, count, FailsRead, step-IsOver, obey-sessions, run-writer,
}

module _ {F : Type 0} (fl : Float64 F) (decode : Raw → Option Command) where
  -- The reader of `k` has returned, or returns when its `ReadMessage` fails.
  write_on-reading :
      (j k : ℕ) (r : Round) (l : Loop) (s : Site F)
      → ((write_on j r l s).sessions k).reading ≡ (s.sessions k).reading
  write_on-reading j k r returned s = refl
  write_on-reading j k r (goes_on last) s = ground arith

  read_round-reading :
      (env : Env F) (j k : ℕ) (message : Option Raw) (s : Site F)
      → (s.sessions k).reading ≡ false
      → ((read_round fl decode env j message s).sessions k).reading ≡ false
  read_round-reading env j k none s off = ground arith
  read_round-reading env j k (some message) s off =
      ap (λ f. (f k).reading) (obey-sessions fl decode env (decode message) s) ∙ off

  step-reading :
      (k : ℕ) (e : Event F) (s : Site F)
      → k < s.manager.hub.next_chan
      → (s.sessions k).reading ≡ false
      → ((step fl decode e s).sessions k).reading ≡ false
  unfolding step ws_handler subscribe writer_turn reader_turn
  step-reading k (serves env e) s made off = off
  step-reading k (opens true) s made off = ground arith
  step-reading k (opens false) s made off = off
  step-reading k (reads env j message) s made off =
      if_holds (λ (u : Site F). (u.sessions k).reading ≡ false) (s.sessions j).reading
        (read_round-reading env j k message s off) off
  step-reading k (writes j now takes_done written) s made off =
      write_on-reading j k _ (s.sessions j).writer s ∙ off

  failed_read :
      (env : Env F) (k : ℕ) (s : Site F)
      → ((reader_turn fl decode env k none s).sessions k).reading ≡ false
  unfolding reader_turn
  failed_read env k s = elim (Bool-cases (s.sessions k).reading) [
    | inl on ↦ rw (on, reader_turn) (ground arith)
    | inr off ↦ rw (off, reader_turn) off
  ]

  own_read :
      (k : ℕ) (e : Event F) (s : Site F)
      → FailsRead k e
      → is_read k e ≡ true
      → ((step fl decode e s).sessions k).reading ≡ false
  unfolding step
  own_read k (serves env e) s fails own = absurd (ground arith)
  own_read k (opens upgraded) s fails own = absurd (ground arith)
  own_read k (writes j now takes_done written) s fails own = absurd (ground arith)
  own_read k (reads env j message) s fails own =
      let j≡k : j ≡ k = ground arith in
      subst (λ m. ((reader_turn fl decode env j m s).sessions k).reading ≡ false) (sym (fails own))
        (subst (λ i. ((reader_turn fl decode env i none s).sessions k).reading ≡ false) (sym j≡k)
          (failed_read env k s))

  run-reader :
      (k n : ℕ) (es : List (Event F)) (s : Site F)
      → IsOver k n (as_sessions s)
      → All (FailsRead k) es
      → ((s.sessions k).reading ≡ false) ⊎ (0 < count (is_read k) es)
      → ((run fl decode es s).sessions k).reading ≡ false
  unfolding run
  run-reader k n [] s v fails (inl off) = off
  run-reader k n [] s v fails (inr some_read) = absurd (omega arith)
  run-reader k n (e ∷ es) s v (fail, fails) (inl off) =
      run-reader k n es (step fl decode e s) (step-IsOver fl decode k n e s v) fails
        (inl (step-reading k e s v.made off))
  run-reader k n (e ∷ es) s v (fail, fails) (inr some_read) =
      run-reader k n es (step fl decode e s) (step-IsOver fl decode k n e s v) fails
        (elim (Bool-cases (is_read k e)) [
          | inl own ↦ inl (own_read k e s fail own)
          | inr other ↦ inr (ground arith)
        ])

  -- A session that was opened and is not subscribed is over.
  start_site-IsOver :
      (es : List (Event F)) (k : ℕ)
      → let s = run fl decode es start_site in
        k < s.manager.hub.next_chan → contains k s.live ≡ false → IsOver k capacity (as_sessions s)
  unfolding start_site new_manager empty_hub
  start_site-IsOver es k made gone =
      let (events, same) = run-Follows fl decode es start_site in
      let shut = run-IsShut events no_sessions (λ j none_made. absurd (omega arith)) in
      record {
        made = made;
        gone = gone;
        shut = subst IsShut (sym same) shut k made gone;
        few = (run-IsConsistent fl decode es).sound.bounded k;
      }

  -- A session of which a goroutine has returned is not subscribed.
  returned-gone :
      (es : List (Event F)) (k : ℕ)
      → let s = run fl decode es start_site in
        ((s.sessions k).reading ≡ false) ⊎ ((s.sessions k).writer ≡ returned)
        → contains k s.live ≡ false
  returned-gone es k ended =
      let s = run fl decode es start_site in
      elim (Bool-cases (contains k s.live)) [
        | inl here ↦
            let (reading, last, writer) = live-Loops fl decode es k here in
            absurd (ground (arith, ended, reading, writer))
        | inr gone ↦ gone
      ]

  -- After whatever happened at the server, a session that was opened, and of which the reader or the
  -- writer has returned, ends as a whole, whatever else happens then: if each `ReadMessage` on its web
  -- socket, which is closed, fails from then on, then one round of the reader and 101 rounds of the
  -- writer are enough, and both have returned.
  pub run-start_site-returned :
      (es es' : List (Event F)) (k : ℕ)
      → let s = run fl decode es start_site in
        k < s.manager.hub.next_chan
        → ((s.sessions k).reading ≡ false) ⊎ ((s.sessions k).writer ≡ returned)
        → All (FailsRead k) es'
        → 0 < count (is_read k) es'
        → capacity < count (is_write k) es'
        → let s' = run fl decode es' s in
          ((s'.sessions k).reading ≡ false) × ((s'.sessions k).writer ≡ returned)
  run-start_site-returned es es' k made ended fails some_read enough =
      let s = run fl decode es start_site in
      let v = start_site-IsOver es k made (returned-gone es k ended) in
      (
        run-reader k capacity es' s v fails (inr some_read),
        run-writer fl decode k capacity es' s v enough,
      )
