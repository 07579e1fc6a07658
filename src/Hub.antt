-- ===== src/Hub.antt =====
-- robot/manager.go: the broadcast channels. `make(chan BroadcastMsg, 100)` is a number; the memory
-- of the channels is a function. A send on a closed channel and a second `close` panic, which the
-- flag records. A broadcast visits the set of subscribers in the order of the list here, Go in any.
pub mod Sound
pub mod Delivery
pub mod Sessions
use rom_go_app.Prelude.{
  ℕ, suc, Bool, true, false, List, [], ◌∷◌, ◌++◌, if◌then◌else◌, ltb, ◌==◌, length,
}

pub record Chan (M : Type 0) : Type 0 where
  pub buffer : List M
  pub closed : Bool

pub record Hub (M : Type 0) : Type 0 where
  pub chans : ℕ → Chan M
  pub next_chan : ℕ
  pub subscribers : List ℕ
  pub panicked : Bool

-- The capacity of a subscriber's channel.
abbrev pub capacity : ℕ
capacity = 100

abbrev pub contains : ℕ → List ℕ → Bool
contains k [] = false
contains k (j ∷ js) = if j == k then true else contains k js

abbrev pub without : ℕ → List ℕ → List ℕ
without k [] = []
without k (j ∷ js) = if j == k then without k js else j ∷ without k js

module _ {M : Type 0} where
  abbrev pub empty_chan : Chan M
  empty_chan = record { buffer = []; closed = false }

  abbrev pub set_chan : ℕ → Chan M → Hub M → Hub M
  set_chan k ch h = record h { chans = λ j. if j == k then ch else h.chans j }

  unfoldable pub empty_hub : Hub M
  empty_hub = record { chans = λ _. empty_chan; next_chan = 0; subscribers = []; panicked = false }

  -- The new channel stands at the end of the list.
  unfoldable pub subscribe : Hub M → Hub M × ℕ
  subscribe h =
      let k = h.next_chan in
      (
        record (set_chan k empty_chan h) {
          next_chan = suc k;
          subscribers = h.subscribers ++ k ∷ [];
        },
        k,
      )

  unfoldable pub close_chan : ℕ → Hub M → Hub M
  close_chan k h =
      if (h.chans k).closed
      then record h { panicked = true }
      else set_chan k (record (h.chans k) { closed = true }) h

  unfoldable pub unsubscribe : ℕ → Hub M → Hub M
  unsubscribe k h = close_chan k (record h { subscribers = without k h.subscribers })

  -- The `select` with a `default`: a full channel drops the message.
  unfoldable pub offer : M → ℕ → Hub M → Hub M
  offer m k h =
      if (h.chans k).closed
      then record h { panicked = true }
      else if ltb (length (h.chans k).buffer) capacity
      then set_chan k (record (h.chans k) { buffer = (h.chans k).buffer ++ m ∷ [] }) h
      else h

  unfoldable pub offer_each : M → List ℕ → Hub M → Hub M
  offer_each m [] h = h
  offer_each m (k ∷ ks) h = offer_each m ks (offer m k h)

  unfoldable pub broadcast : M → Hub M → Hub M
  broadcast m h = offer_each m h.subscribers h
