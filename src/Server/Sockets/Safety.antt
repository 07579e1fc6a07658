-- ===== src/Server/Sockets/Safety.antt =====
-- The sessions of browsers share the hub of the registry with everything that the server does: what
-- happens at the server is a run of the sessions alone.
use rom_go_app.Prelude.{
  ℕ, ◌≤◌, ◌≡◌, ◌∙◌, refl, sym, ap, Bool, true, false, ◌&&◌, Option, none, some, List, [], ◌∷◌, ◌++◌,
  map, Float64, ◌||◌, length, Bool-cases, inl, inr, subst,
}
use rom_go_app.Rosbridge.Codec.{Raw}
use rom_go_app.Hub.{Hub, capacity, contains, subscribe, empty_hub}
use rom_go_app.Hub.Sound.{empty_hub-IsSound}
use rom_go_app.Hub.Delivery.{broadcast_all}
use rom_go_app.Hub.Sessions as Sessions
use rom_go_app.Hub.Sessions.{
  Sessions, cleanup, cleans, joins, reads as receives, says, no_sessions, IsConsistent,
}
use rom_go_app.Manager.{BroadcastMsg, new_manager}
use rom_go_app.Manager.Hearing.{Heard, evolve-Heard}
use rom_go_app.Browser.{Command, forward}
use rom_go_app.Browser.Writer.{
  Round, Loop, goes_on, returned, is_done, after_write, take_message, writer_round,
}
use rom_go_app.Server.{Env, commands_in}
use rom_go_app.Server as Server
use rom_go_app.Server.Kept.{nothing, Sound}
use rom_go_app.Server.Events.{step-Changes}
use rom_go_app.Server.Sockets.{
  Site, Event, serves, opens, reads, writes, as_sessions, start_site, ws_handler, write_on,
  writer_turn, obey, read_round, reader_turn, step, run,
}

module _ {F : Type 0} where
  -- Some events of the sessions lead from `t` to `t'`.
  abbrev pub Follows : Sessions (BroadcastMsg F) → Sessions (BroadcastMsg F) → Type 0
  Follows t t' = (es : List (Sessions.Event (BroadcastMsg F))) × (t' ≡ Sessions.run t es)

  stays : (t : Sessions (BroadcastMsg F)) → Follows t t
  unfolding Sessions.run
  stays t = ([], refl)

  run-append :
      (t : Sessions (BroadcastMsg F)) (es es' : List (Sessions.Event (BroadcastMsg F)))
      → Sessions.run t (es ++ es') ≡ Sessions.run (Sessions.run t es) es'
  unfolding Sessions.run
  run-append t [] es' = refl
  run-append t (e ∷ es) es' = run-append (Sessions.step t e) es es'

  Follows-trans :
      (t t' t'' : Sessions (BroadcastMsg F)) → Follows t t' → Follows t' t'' → Follows t t''
  Follows-trans t t' t'' (es, e) (es', e') =
      (es ++ es', e' ∙ ap (λ u. Sessions.run u es') e ∙ sym (run-append t es es'))

  says-run :
      (msgs : List (BroadcastMsg F)) (t : Sessions (BroadcastMsg F))
      → Sessions.run t (map says msgs) ≡ record t { hub = broadcast_all msgs t.hub }
  unfolding Sessions.run Sessions.step broadcast_all
  says-run [] t = refl
  says-run (m ∷ msgs) t = says-run msgs (Sessions.step t (says m))

  Heard-Follows :
      (h : Hub (BroadcastMsg F)) (t : Sessions (BroadcastMsg F))
      → Heard t.hub h
      → Follows t (record t { hub = h })
  Heard-Follows h t (msgs, e) = (
    map says msgs,
    ap (λ (g : Hub (BroadcastMsg F)). record t { hub = g }) e ∙ sym (says-run msgs t),
  )

  after_write-Follows :
      (k : ℕ) (written : Bool) (w : Option ℕ × Bool) (t : Sessions (BroadcastMsg F))
      → Follows t (after_write k written w t).0
  unfolding Sessions.run Sessions.step
  after_write-Follows k true (last, true) t = ([], refl)
  after_write-Follows k false (last, true) t = (cleans k ∷ [], refl)
  after_write-Follows k written (last, false) t = ([], refl)

  take_message-Follows :
      (k : ℕ) (r : Round) (last : Option ℕ) (buffer : List (BroadcastMsg F))
      (t : Sessions (BroadcastMsg F))
      → Follows t (take_message k r last buffer t).0
  unfolding Sessions.run Sessions.step
  take_message-Follows k r last [] t = elim (Bool-cases ((t.hub.chans k).closed || is_done k t)) [
    | inl e ↦ rw e (cleans k ∷ [], refl)
    | inr e ↦ rw e ([], refl)
  ]
  take_message-Follows k r last (m ∷ rest) t =
      let next = Sessions.step t (receives k) in
      Follows-trans t next _ (receives k ∷ [], refl)
        (after_write-Follows k r.writes (forward r.now m last) next)

  pub writer_round-Follows :
      (k : ℕ) (r : Round) (last : Option ℕ) (t : Sessions (BroadcastMsg F))
      → Follows t (writer_round k r last t).0
  unfolding writer_round Sessions.run Sessions.step
  writer_round-Follows k r last t = elim (Bool-cases (is_done k t && r.takes_done)) [
    | inl e ↦ rw (e, writer_round) (cleans k ∷ [], refl)
    | inr e ↦ rw (e, writer_round) (take_message-Follows k r last (t.hub.chans k).buffer t)
  ]

  write_on-Follows :
      (k : ℕ) (r : Round) (l : Loop) (s : Site F)
      → Follows (as_sessions s) (as_sessions (write_on k r l s))
  write_on-Follows k r returned s = stays (as_sessions s)
  write_on-Follows k r (goes_on last) s = writer_round-Follows k r last (as_sessions s)

  ws_handler-Follows :
      (upgraded : Bool) (s : Site F) → Follows (as_sessions s) (as_sessions (ws_handler upgraded s))
  unfolding ws_handler Sessions.run Sessions.step subscribe
  ws_handler-Follows true s = (joins ∷ [], refl)
  ws_handler-Follows false s = ([], refl)

module _ {F : Type 0} (fl : Float64 F) (decode : Raw → Option Command) where
  server-Follows :
      (env : Env F) (e : Server.Event F) (s : Site F)
      → Follows
          (as_sessions s)
          (as_sessions (record s { manager = Server.step fl env e s.manager }))
  server-Follows env e s = Heard-Follows (Server.step fl env e s.manager).hub (as_sessions s) (
      evolve-Heard fl (Sound nothing) s.manager (Server.step fl env e s.manager)
        (step-Changes fl nothing env e s.manager tt tt))

  obey-Follows :
      (env : Env F) (cmd : Option Command) (s : Site F)
      → Follows (as_sessions s) (as_sessions (obey fl decode env cmd s))
  unfolding Server.step
  obey-Follows env none s = stays (as_sessions s)
  obey-Follows env (some cmd) s = server-Follows env (commands_in cmd) s

  read_round-Follows :
      (env : Env F) (k : ℕ) (message : Option Raw) (s : Site F)
      → Follows (as_sessions s) (as_sessions (read_round fl decode env k message s))
  unfolding Sessions.run Sessions.step
  read_round-Follows env k none s = (cleans k ∷ [], refl)
  read_round-Follows env k (some message) s = obey-Follows env (decode message) s

  pub step-Follows :
      (e : Event F) (s : Site F) → Follows (as_sessions s) (as_sessions (step fl decode e s))
  unfolding step reader_turn writer_turn
  step-Follows (serves env e) s = server-Follows env e s
  step-Follows (opens upgraded) s = ws_handler-Follows upgraded s
  step-Follows (reads env k message) s = elim (Bool-cases (s.sessions k).reading) [
    | inl on ↦ rw (on, reader_turn) (read_round-Follows env k message s)
    | inr off ↦ rw (off, reader_turn) (stays (as_sessions s))
  ]
  step-Follows (writes k now takes_done written) s = write_on-Follows k _ (s.sessions k).writer s

  pub run-Follows :
      (es : List (Event F)) (s : Site F)
      → Follows (as_sessions s) (as_sessions (run fl decode es s))
  unfolding run
  run-Follows [] s = stays (as_sessions s)
  run-Follows (e ∷ es) s =
      Follows-trans _ _ _ (step-Follows e s) (run-Follows es (step fl decode e s))

  pub run-IsConsistent :
      (es : List (Event F)) → IsConsistent (as_sessions (run fl decode es start_site))
  unfolding start_site new_manager empty_hub
  run-IsConsistent es =
      let (events, e) = run-Follows es start_site in
      subst IsConsistent (sym e) (
        Sessions.run-IsConsistent no_sessions events
          (record { sound = empty_hub-IsSound; same = refl }))

  -- The whole server, with the sessions of its browsers, from its start: whatever requests, commands,
  -- callbacks, turns of the robots' goroutines, upgrades, rounds of the readers and of the writers
  -- come, in any order, no send on a closed channel and no second close ever happens, no channel
  -- holds more than its capacity, and a channel that is subscribed is open.
  pub run-start_site-no_panic :
      (es : List (Event F))
      → let h = (run fl decode es start_site).manager.hub in
        (h.panicked ≡ false)
        × ((k : ℕ) → length (h.chans k).buffer ≤ capacity)
        × ((k : ℕ) → contains k h.subscribers ≡ true → (h.chans k).closed ≡ false)
  run-start_site-no_panic es =
      let v = run-IsConsistent es in (v.sound.calm, v.sound.bounded, v.sound.open_chans)
