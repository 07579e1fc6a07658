-- ===== src/Server/Sockets/Manned.antt =====
-- A session that is subscribed has both its goroutines.
use rom_go_app.Prelude.{
  ℕ, ◌≡◌, ◌∙◌, if_holds, refl, sym, ap, Bool, true, false, ◌&&◌, ◌⊎◌, Option, none, some, List, [],
  ◌∷◌, Float64, ◌==◌, ◌||◌, arith, Bool-cases, inl, inr, subst,
}
use rom_go_app.Rosbridge.Codec.{Raw}
use rom_go_app.Hub.{contains, subscribe}
use rom_go_app.Hub.Sound.{contains-append, contains-without}
use rom_go_app.Hub.Sessions.{Sessions, cleanup, receive}
use rom_go_app.Manager.{BroadcastMsg}
use rom_go_app.Browser.{Command, forward}
use rom_go_app.Browser.Writer.{
  Round, Loop, goes_on, returned, is_done, return_from, after_write, take_message, writer_round,
}
use rom_go_app.Server.{Env}
use rom_go_app.Server.Sockets.Safety.{run-IsConsistent}
use rom_go_app.Server.Sockets.{
  Session, Site, Event, serves, opens, reads, writes, as_sessions, start_site, ws_handler, write_on,
  writer_turn, obey, read_round, reader_turn, step, run,
}

-- Both goroutines of the session loop.
abbrev pub Loops : Session → Type 0
Loops session = (session.reading ≡ true) × (last : Option ℕ) × (session.writer ≡ goes_on last)

module _ {F : Type 0} where
  abbrev pub IsManned : Site F → Type 0
  IsManned s = (k : ℕ) → contains k s.live ≡ true → Loops (s.sessions k)

  cleaned :
      (j k : ℕ) (t : Sessions (BroadcastMsg F))
      → contains j (cleanup k t).live ≡ true
      → (contains j t.live ≡ true) × ((j == k) ≡ false)
  unfolding cleanup
  cleaned j k t = elim (Bool-cases (contains k t.live)) [
    | inl e ↦ rw (e, cleanup) (λ c. ground (arith, contains-without j k t.live))
    | inr e ↦ rw (e, cleanup) (λ c. (c, ground arith))
  ]

  -- A round goes on with the same sessions, or returns and has cleaned up its own.
  abbrev Outcome : ℕ → List ℕ → Sessions (BroadcastMsg F) × Loop → Type 0
  Outcome k live (t, l) =
      ((last : Option ℕ) × (l ≡ goes_on last) × (t.live ≡ live))
      ⊎ ((j : ℕ) → contains j t.live ≡ true → (contains j live ≡ true) × ((j == k) ≡ false))

  return_from-Outcome : (k : ℕ) (t : Sessions (BroadcastMsg F)) → Outcome k t.live (return_from k t)
  return_from-Outcome k t = inr (λ j. cleaned j k t)

  after_write-Outcome :
      (k : ℕ) (written : Bool) (w : Option ℕ × Bool) (t : Sessions (BroadcastMsg F))
      → Outcome k t.live (after_write k written w t)
  after_write-Outcome k true (last, true) t = inl (last, refl, refl)
  after_write-Outcome k false (last, true) t = return_from-Outcome k t
  after_write-Outcome k written (last, false) t = inl (last, refl, refl)

  take_message-Outcome :
      (k : ℕ) (r : Round) (last : Option ℕ) (buffer : List (BroadcastMsg F))
      (t : Sessions (BroadcastMsg F))
      → Outcome k t.live (take_message k r last buffer t)
  take_message-Outcome k r last [] t = elim (Bool-cases ((t.hub.chans k).closed || is_done k t)) [
    | inl e ↦ rw e (return_from-Outcome k t)
    | inr e ↦ rw e (inl (last, refl, refl))
  ]
  take_message-Outcome k r last (m ∷ rest) t =
      after_write-Outcome k r.writes (forward r.now m last) (record t { hub = receive k t.hub })

  writer_round-Outcome :
      (k : ℕ) (r : Round) (last : Option ℕ) (t : Sessions (BroadcastMsg F))
      → Outcome k t.live (writer_round k r last t)
  unfolding writer_round
  writer_round-Outcome k r last t = elim (Bool-cases (is_done k t && r.takes_done)) [
    | inl e ↦ rw (e, writer_round) (return_from-Outcome k t)
    | inr e ↦ rw (e, writer_round) (take_message-Outcome k r last (t.hub.chans k).buffer t)
  ]

  write_on-IsManned :
      (k : ℕ) (r : Round) (l : Loop) (s : Site F)
      → l ≡ (s.sessions k).writer
      → IsManned s
      → IsManned (write_on k r l s)
  write_on-IsManned k r returned s same v = v
  write_on-IsManned k r (goes_on last) s same v = λ j c.
      elim (writer_round-Outcome k r last (as_sessions s)) [
        | inl (next, e, live) ↦
            let here : Loops (s.sessions j) = v j (ap (contains j) (sym live) ∙ c) in
            elim (Bool-cases (j == k)) [
              | inl own ↦
                  rw own (subst (λ i. (s.sessions i).reading ≡ true) (ground arith) here.0, next, e)
              | inr other ↦ rw other here
            ]
        | inr apart ↦ let (here, other) = apart j c in rw other (v j here)
      ]

  ws_handler-IsManned :
      (upgraded : Bool) (s : Site F) → IsManned s → IsManned (ws_handler upgraded s)
  unfolding ws_handler subscribe
  ws_handler-IsManned false s v = v
  ws_handler-IsManned true s v = λ j c. elim (Bool-cases (j == s.manager.hub.next_chan)) [
    | inl new ↦ rw new (refl, none, refl)
    | inr old ↦ rw old (v j (ground (arith, contains-append j s.manager.hub.next_chan s.live)))
  ]

module _ {F : Type 0} (fl : Float64 F) (decode : Raw → Option Command) where
  obey-IsManned :
      (env : Env F) (cmd : Option Command) (s : Site F)
      → IsManned s
      → IsManned (obey fl decode env cmd s)
  obey-IsManned env none s v = v
  obey-IsManned env (some cmd) s v = v

  read_round-IsManned :
      (env : Env F) (k : ℕ) (message : Option Raw) (s : Site F)
      → IsManned s
      → IsManned (read_round fl decode env k message s)
  read_round-IsManned env k none s v =
      λ j c. let (here, other) = cleaned j k (as_sessions s) c in rw other (v j here)
  read_round-IsManned env k (some message) s v = obey-IsManned env (decode message) s v

  step-IsManned : (e : Event F) (s : Site F) → IsManned s → IsManned (step fl decode e s)
  unfolding step reader_turn writer_turn
  step-IsManned (serves env e) s v = v
  step-IsManned (opens upgraded) s v = ws_handler-IsManned upgraded s v
  step-IsManned (reads env k message) s v =
      if_holds IsManned (s.sessions k).reading (read_round-IsManned env k message s v) v
  step-IsManned (writes k now takes_done written) s v =
      write_on-IsManned k _ (s.sessions k).writer s refl v

  run-IsManned : (es : List (Event F)) (s : Site F) → IsManned s → IsManned (run fl decode es s)
  unfolding run
  run-IsManned [] s v = v
  run-IsManned (e ∷ es) s v = run-IsManned es (step fl decode e s) (step-IsManned e s v)

  pub live-Loops :
      (es : List (Event F)) (k : ℕ)
      → let s = run fl decode es start_site in contains k s.live ≡ true → Loops (s.sessions k)
  unfolding start_site
  live-Loops es = run-IsManned es start_site (λ j here. cc)

  -- After whatever happened at the server, a channel to which messages are broadcast belongs to a
  -- session whose reader and whose writer both still loop.
  pub run-start_site-Loops :
      (es : List (Event F)) (k : ℕ)
      → let s = run fl decode es start_site in
        contains k s.manager.hub.subscribers ≡ true → Loops (s.sessions k)
  run-start_site-Loops es k c =
      live-Loops es k (ap (contains k) (run-IsConsistent fl decode es).same ∙ c)
