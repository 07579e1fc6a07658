-- ===== src/Hub/Sessions.antt =====
-- handlers/ws_handler.go: the browser sessions that subscribe to the broadcasts. The reader and the
-- writer of a session both end in `cleanup`, which runs once.
use rom_go_app.Prelude.{
  ℕ, ◌≡◌, sym, ap, List, [], ◌∷◌, ◌++◌, arith, if◌then◌else◌, Bool-cases, inl, inr, length,
  List-cases, ◌∙◌,
}
use rom_go_app.Hub.{
  Hub, contains, without, set_chan, empty_hub, subscribe, unsubscribe, broadcast, close_chan,
}
use rom_go_app.Hub.Sound.{
  IsSound, broadcast-IsSound, subscribe-IsSound, unsubscribe-IsSound, broadcast_lem,
}

-- `live` holds the channels of the sessions whose `closeOnce` has not run.
pub record Sessions (M : Type 0) : Type 0 where
  pub hub : Hub M
  pub live : List ℕ

pub data Event (M : Type 0) : Type 0 where
  joins : Event M
  cleans : ℕ → Event M
  says : M → Event M
  reads : ℕ → Event M

module _ {M : Type 0} where
  -- `msg, ok := <-bcast` when a message waits.
  unfoldable pub receive : ℕ → Hub M → Hub M
  receive k h = elim (h.chans k).buffer [
    | [] ↦ h
    | m ∷ rest ↦ set_chan k (record (h.chans k) { buffer = rest }) h
  ]

  unfoldable pub cleanup : ℕ → Sessions M → Sessions M
  cleanup k s =
      if contains k s.live
      then record s { hub = unsubscribe k s.hub; live = without k s.live }
      else s

  unfoldable pub step : Sessions M → Event M → Sessions M
  step s joins = let (h, k) = subscribe s.hub in record s { hub = h; live = s.live ++ k ∷ [] }
  step s (cleans k) = cleanup k s
  step s (says m) = record s { hub = broadcast m s.hub }
  step s (reads k) = record s { hub = receive k s.hub }

  unfoldable pub run : Sessions M → List (Event M) → Sessions M
  run s [] = s
  run s (e ∷ es) = run (step s e) es

  abbrev pub no_sessions : Sessions M
  no_sessions = record { hub = empty_hub; live = [] }

  pub record IsConsistent (s : Sessions M) : Type 0 where
    pub sound : IsSound s.hub
    pub same : s.live ≡ s.hub.subscribers

  receive-IsSound : (k : ℕ) (h : Hub M) → IsSound h → IsSound (receive k h)
  unfolding receive
  receive-IsSound k h v = elim (List-cases (h.chans k).buffer) [
    | inl e ↦ rw (e, receive) v
    | inr (m, rest, e) ↦
        rw (e, receive)
          (record {
            open_chans = λ j c. ground (arith, v.open_chans j c, v.open_chans k);
            made = v.made;
            distinct = v.distinct;
            bounded = λ j. ground (arith, v.bounded j, v.bounded k, ap length e);
            calm = v.calm;
          })
  ]

  receive-subscribers : (k : ℕ) (h : Hub M) → (receive k h).subscribers ≡ h.subscribers
  unfolding receive
  receive-subscribers k h = ground arith

  unsubscribe-subscribers :
      (k : ℕ) (h : Hub M) → (unsubscribe k h).subscribers ≡ without k h.subscribers
  unfolding unsubscribe close_chan
  unsubscribe-subscribers k h = ground arith

  cleanup-IsConsistent : (k : ℕ) (s : Sessions M) → IsConsistent s → IsConsistent (cleanup k s)
  unfolding cleanup
  cleanup-IsConsistent k s v = elim (Bool-cases (contains k s.live)) [
    | inl e ↦
        rw (e, cleanup)
          (record {
            sound = unsubscribe-IsSound k s.hub (ground (arith, v.same)) v.sound;
            same = ap (without k) v.same ∙ sym (unsubscribe-subscribers k s.hub);
          })
    | inr e ↦ rw (e, cleanup) v
  ]

  pub step-IsConsistent : (s : Sessions M) (e : Event M) → IsConsistent s → IsConsistent (step s e)
  unfolding step subscribe
  step-IsConsistent s joins v = record {
    sound = subscribe-IsSound s.hub v.sound;
    same = ap (λ l. l ++ s.hub.next_chan ∷ []) v.same;
  }
  step-IsConsistent s (cleans k) v = cleanup-IsConsistent k s v
  step-IsConsistent s (says m) v = record {
    sound = broadcast-IsSound m s.hub v.sound;
    same = v.same ∙ sym (broadcast_lem m s.hub v.sound).2;
  }
  step-IsConsistent s (reads k) v = record {
    sound = receive-IsSound k s.hub v.sound;
    same = v.same ∙ sym (receive-subscribers k s.hub);
  }

  pub run-IsConsistent :
      (s : Sessions M) (es : List (Event M)) → IsConsistent s → IsConsistent (run s es)
  unfolding run
  run-IsConsistent s [] v = v
  run-IsConsistent s (e ∷ es) v = run-IsConsistent (step s e) es (step-IsConsistent s e v)
