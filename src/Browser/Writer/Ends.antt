-- ===== src/Browser/Writer/Ends.antt =====
-- A round of the writer of a session that is over returns, or takes one of the messages that wait.
use rom_go_app.Prelude.{
  ℕ, ◌<◌, ◌≤◌, ◌≡◌, ◌∙◌, suc, zero, ◌⊎◌, refl, Bool, true, false, ◌&&◌, Option, List, [], ◌∷◌,
  length, arith, Bool-cases, List-cases, inl, inr, ap,
}
use rom_go_app.Hub.{
  Chan, Hub, contains, subscribe, unsubscribe, close_chan, offer, offer_each, broadcast,
}
use rom_go_app.Hub.Sound.{contains-append, contains-without}
use rom_go_app.Hub.Sessions.{
  Sessions, Event, joins, cleans, says, reads, receive, cleanup, step, run,
}
use rom_go_app.Manager.{BroadcastMsg}
use rom_go_app.Browser.{forward}
use rom_go_app.Browser.Writer.{
  Round, Loop, returned, is_done, after_write, take_message, writer_round,
}

module _ {F : Type 0} where
  -- The session `k` is over, and `n` messages at most wait in its channel.
  pub record IsOver (k n : ℕ) (s : Sessions (BroadcastMsg F)) : Type 0 where
    pub made : k < s.hub.next_chan
    pub gone : contains k s.live ≡ false
    pub shut : (s.hub.chans k).closed ≡ true
    pub few : length (s.hub.chans k).buffer ≤ n

  offer-shut :
      (m : BroadcastMsg F) (j k : ℕ) (h : Hub (BroadcastMsg F))
      → (h.chans k).closed ≡ true
      → ((offer m j h).chans k ≡ h.chans k) × ((offer m j h).next_chan ≡ h.next_chan)
  unfolding offer
  offer-shut m j k h e = (ground arith, ground arith)

  offer_each-shut :
      (m : BroadcastMsg F) (js : List ℕ) (k : ℕ) (h : Hub (BroadcastMsg F))
      → (h.chans k).closed ≡ true
      → ((offer_each m js h).chans k ≡ h.chans k) × ((offer_each m js h).next_chan ≡ h.next_chan)
  unfolding offer_each
  offer_each-shut m [] k h e = (refl, refl)
  offer_each-shut m (j ∷ js) k h e =
      let (same, next) = offer-shut m j k h e in
      let (same', next') =
        offer_each-shut m js k (offer m j h)
          (ap (λ (c : Chan (BroadcastMsg F)). c.closed) same ∙ e) in
      (same' ∙ same, next' ∙ next)

  pub receive-few :
      (j k : ℕ) (h : Hub (BroadcastMsg F))
      → (((receive j h).chans k).closed ≡ (h.chans k).closed)
        × (length ((receive j h).chans k).buffer ≤ length (h.chans k).buffer)
        × ((receive j h).next_chan ≡ h.next_chan)
  unfolding receive
  receive-few j k h = elim (List-cases (h.chans j).buffer) [
    | inl e ↦ rw (e, receive) (refl, omega arith, refl)
    | inr (m, rest, e) ↦ rw (e, receive) (ground arith, ground (arith, ap length e), refl)
  ]

  step-IsOver :
      (k n : ℕ) (s : Sessions (BroadcastMsg F)) (e : Event (BroadcastMsg F))
      → IsOver k n s
      → IsOver k n (step s e)
  unfolding step subscribe cleanup unsubscribe close_chan broadcast
  step-IsOver k n s joins v = record {
    made = ground (arith, v.made);
    gone = ground (arith, contains-append k s.hub.next_chan s.live, v.gone, v.made);
    shut = ground (arith, v.shut, v.made);
    few = ground (arith, v.few, v.made);
  }
  step-IsOver k n s (cleans j) v = record {
    made = ground (arith, v.made);
    gone = ground (arith, contains-without k j s.live, v.gone);
    shut = ground (arith, v.shut);
    few = ground (arith, v.few);
  }
  step-IsOver k n s (says m) v =
      let (same, next) = offer_each-shut m s.hub.subscribers k s.hub v.shut in
      record { made = rw next v.made; gone = v.gone; shut = rw same v.shut; few = rw same v.few }
  step-IsOver k n s (reads j) v =
      let (shut, few, next) = receive-few j k s.hub in
      record {
        made = rw next v.made;
        gone = v.gone;
        shut = shut ∙ v.shut;
        few = omega (arith, v.few);
      }

  pub run-IsOver :
      (k n : ℕ) (es : List (Event (BroadcastMsg F))) (s : Sessions (BroadcastMsg F))
      → IsOver k n s
      → IsOver k n (run s es)
  unfolding run
  run-IsOver k n [] s v = v
  run-IsOver k n (e ∷ es) s v = run-IsOver k n es (step s e) (step-IsOver k n s e v)

  -- A message is taken from the channel.
  receive-IsOver :
      (k n : ℕ) (s : Sessions (BroadcastMsg F)) (m : BroadcastMsg F) (rest : List (BroadcastMsg F))
      → IsOver k (suc n) s
      → (s.hub.chans k).buffer ≡ m ∷ rest
      → IsOver k n (record s { hub = receive k s.hub })
  unfolding receive
  receive-IsOver k n s m rest v e =
      rw (e, receive)
        (record {
          made = v.made;
          gone = v.gone;
          shut = ground (arith, v.shut);
          few = ground (arith, v.few, ap length e);
        })

  after_write-IsOver :
      (k n : ℕ) (writes : Bool) (w : Option ℕ × Bool) (s : Sessions (BroadcastMsg F))
      → IsOver k n s
      → let (after, l) = after_write k writes w s in (l ≡ returned) ⊎ IsOver k n after
  after_write-IsOver k n true (last, true) s v = inr v
  after_write-IsOver k n false (last, true) s v = inl refl
  after_write-IsOver k n writes (last, false) s v = inr v

  -- A round either returns or takes a message.
  abbrev pub Closer : ℕ → ℕ → Sessions (BroadcastMsg F) × Loop → Type 0
  Closer k n (s, l) = (l ≡ returned) ⊎ ((j : ℕ) × (j < n) × IsOver k j s)

  take_message-Closer :
      (k n : ℕ) (r : Round) (last : Option ℕ) (buffer : List (BroadcastMsg F))
      (s : Sessions (BroadcastMsg F))
      → (s.hub.chans k).buffer ≡ buffer
      → IsOver k n s
      → Closer k n (take_message k r last buffer s)
  take_message-Closer k n r last [] s e v = inl (rw v.shut refl)
  take_message-Closer k zero r last (m ∷ rest) s e v = absurd (ground (arith, v.few, ap length e))
  take_message-Closer k (suc n) r last (m ∷ rest) s e v =
      elim (after_write-IsOver k n r.writes (forward r.now m last)
        (record s { hub = receive k s.hub }) (receive-IsOver k n s m rest v e)) [
          | inl done ↦ inl done
          | inr over ↦ inr (n, omega arith, over)
        ]

  pub writer_round-Closer :
      (k n : ℕ) (r : Round) (last : Option ℕ) (s : Sessions (BroadcastMsg F))
      → IsOver k n s
      → Closer k n (writer_round k r last s)
  unfolding writer_round
  writer_round-Closer k n r last s v = elim (Bool-cases r.takes_done) [
    | inl done ↦ inl (rw (v.gone, done) refl)
    | inr message ↦
        let skips : (is_done k s && r.takes_done) ≡ false = ground (arith, v.gone) in
        rw skips (take_message-Closer k n r last (s.hub.chans k).buffer s refl v)
  ]
