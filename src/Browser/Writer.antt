-- ===== src/Browser/Writer.antt =====
-- handlers/ws_handler.go: the goroutine that writes to a browser, among the other sessions.
pub mod Ends
use rom_go_app.Prelude.{
  ℕ, ◌+◌, ◌<◌, ◌≤◌, ◌≡◌, ◌≢◌, refl, Bool, true, false, not, ◌&&◌, ◌||◌, Option, none, some, List,
  [], ◌∷◌, ◌++◌, if◌then◌else◌, ◌==◌, length, arith, Bool-cases, List-cases, inl, inr, ap,
}
use rom_go_app.Hub.{
  Hub, capacity, contains, without, subscribe, unsubscribe, close_chan, offer, offer_each,
  broadcast, empty_hub,
}
use rom_go_app.Hub.Sound.{contains-append, contains-without}
use rom_go_app.Hub.Sessions.{
  Sessions, Event, joins, cleans, says, reads, receive, cleanup, step, run, no_sessions,
  IsConsistent, run-IsConsistent,
}
use rom_go_app.Manager.{BroadcastMsg}
use rom_go_app.Browser.{forward}

-- One round of the loop: the time, the case that `select` takes where both are ready, and whether
-- `WriteJSON` succeeds.
pub record Round : Type 0 where
  pub now : ℕ
  pub takes_done : Bool
  pub writes : Bool

-- The loop goes on with a new `lastMapSend`, or has returned.
pub data Loop : Type 0 where
  goes_on : Option ℕ → Loop
  returned : Loop

module _ {F : Type 0} where
  -- `done` is closed once the cleanup has run.
  abbrev pub is_done : ℕ → Sessions (BroadcastMsg F) → Bool
  is_done k s = not (contains k s.live)

  -- The deferred cleanup.
  abbrev pub return_from : ℕ → Sessions (BroadcastMsg F) → Sessions (BroadcastMsg F) × Loop
  return_from k s = (cleanup k s, returned)

  abbrev pub after_write :
      ℕ → Bool → Option ℕ × Bool → Sessions (BroadcastMsg F) → Sessions (BroadcastMsg F) × Loop
  after_write k writes (last, true) s = if writes then (s, goes_on last) else return_from k s
  after_write k writes (last, false) s = (s, goes_on last)

  -- The case of the channel: without a message the loop waits, unless the channel is closed.
  abbrev pub take_message :
      ℕ
      → Round
      → Option ℕ
      → List (BroadcastMsg F)
      → Sessions (BroadcastMsg F)
      → Sessions (BroadcastMsg F) × Loop
  take_message k r last [] s =
      if (s.hub.chans k).closed || is_done k s then return_from k s else (s, goes_on last)
  take_message k r last (msg ∷ _) s =
      after_write k r.writes (forward r.now msg last) (record s { hub = receive k s.hub })

  unfoldable pub writer_round :
      ℕ → Round → Option ℕ → Sessions (BroadcastMsg F) → Sessions (BroadcastMsg F) × Loop
  writer_round k r last s =
      if is_done k s && r.takes_done
      then return_from k s
      else take_message k r last (s.hub.chans k).buffer s
