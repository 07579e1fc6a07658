-- ===== src/Hub/Sound.antt =====
-- What holds of the broadcast channels between two operations, so that none of them panics.
use rom_go_app.Prelude.{
  ℕ, ◌<◌, ◌≤◌, ◌≡◌, refl, ◌∙◌, true, false, List, [], ◌∷◌, ◌++◌, arith, if◌then◌else◌, ltb, ◌==◌,
  length, length-append,
}
use rom_go_app.Hub.{
  Chan, Hub, capacity, contains, without, empty_hub, subscribe, close_chan, unsubscribe, offer,
  offer_each, broadcast,
}

abbrev pub Distinct : List ℕ → Type 0
Distinct [] = Unit
Distinct (k ∷ ks) = (contains k ks ≡ false) × Distinct ks

pub contains-append :
    (j k : ℕ) (ks : List ℕ) → contains j (ks ++ k ∷ []) ≡ (if k == j then true else contains j ks)
contains-append j k [] = refl
contains-append j k (i ∷ ks) = ground (arith, contains-append j k ks)

pub contains-without :
    (j k : ℕ) (ks : List ℕ) → contains j (without k ks) ≡ (if j == k then false else contains j ks)
contains-without j k [] = ground arith
contains-without j k (i ∷ ks) = ground (arith, contains-without j k ks)

Distinct-append :
    (k : ℕ) (ks : List ℕ) → contains k ks ≡ false → Distinct ks → Distinct (ks ++ k ∷ [])
Distinct-append k [] n d = (refl, tt)
Distinct-append k (i ∷ ks) n d =
    (ground (arith, contains-append i k ks), Distinct-append k ks (ground arith) d.1)

Distinct-without : (k : ℕ) (ks : List ℕ) → Distinct ks → Distinct (without k ks)
Distinct-without k [] d = tt
Distinct-without k (i ∷ ks) d = ground (arith, contains-without i k ks, Distinct-without k ks d.1)

-- The subscribers are different channels that were made and are open, no channel holds more than
-- its capacity, and nothing has panicked.
pub record IsSound {M : Type 0} (h : Hub M) : Type 0 where
  pub open_chans : (k : ℕ) → contains k h.subscribers ≡ true → (h.chans k).closed ≡ false
  pub made : (k : ℕ) → contains k h.subscribers ≡ true → k < h.next_chan
  pub distinct : Distinct h.subscribers
  pub bounded : (k : ℕ) → length (h.chans k).buffer ≤ capacity
  pub calm : h.panicked ≡ false

module _ {M : Type 0} where
  pub empty_hub-IsSound : IsSound (empty_hub {M = M})
  unfolding empty_hub
  empty_hub-IsSound = record {
    open_chans = λ k e. cc;
    made = λ k e. cc;
    distinct = tt;
    bounded = λ k. omega arith;
    calm = refl;
  }

  -- A channel that takes a message if it has room.
  abbrev pub accept : M → Chan M → Chan M
  accept m ch =
      if ltb (length ch.buffer) capacity then record ch { buffer = ch.buffer ++ m ∷ [] } else ch

  offer_lem :
      (m : M) (k : ℕ) (h : Hub M)
      → (h.chans k).closed ≡ false
      → ((j : ℕ) → (offer m k h).chans j ≡ (if j == k then accept m (h.chans j) else h.chans j))
        × ((offer m k h).panicked ≡ h.panicked)
        × ((offer m k h).subscribers ≡ h.subscribers)
        × ((offer m k h).next_chan ≡ h.next_chan)
  unfolding offer
  offer_lem m k h e = (λ j. ground arith, ground arith, ground arith, ground arith)

  -- Offered to different open channels, in any order of the list, a message reaches each of them
  -- once and no other.
  pub offer_each_lem :
      (m : M) (ks : List ℕ) (h : Hub M)
      → Distinct ks
      → ((k : ℕ) → contains k ks ≡ true → (h.chans k).closed ≡ false)
      → ((j : ℕ)
          → (offer_each m ks h).chans j
            ≡ (if contains j ks then accept m (h.chans j) else h.chans j))
        × ((offer_each m ks h).panicked ≡ h.panicked)
        × ((offer_each m ks h).subscribers ≡ h.subscribers)
        × ((offer_each m ks h).next_chan ≡ h.next_chan)
  unfolding offer_each
  offer_each_lem m [] h d o = (λ j. refl, refl, refl, refl)
  offer_each_lem m (k ∷ ks) h d o =
      let (chans, panic, subs, next) = offer_lem m k h (o k (ground arith)) in
      let (chans', panic', subs', next') =
        offer_each_lem m ks (offer m k h) d.1 (λ j c. ground (arith, chans j, o j)) in
      (λ j. ground (arith, chans' j, chans j), panic' ∙ panic, subs' ∙ subs, next' ∙ next)

  -- In a sound hub, a broadcast puts the message once into the channel of each subscriber that has
  -- room, and changes nothing else.
  pub broadcast_lem :
      (m : M) (h : Hub M)
      → IsSound h
      → ((j : ℕ)
          → (broadcast m h).chans j
            ≡ (if contains j h.subscribers then accept m (h.chans j) else h.chans j))
        × ((broadcast m h).panicked ≡ false)
        × ((broadcast m h).subscribers ≡ h.subscribers)
        × ((broadcast m h).next_chan ≡ h.next_chan)
  unfolding broadcast
  broadcast_lem m h v =
      let (chans, panic, subs, next) = offer_each_lem m h.subscribers h v.distinct v.open_chans in
      (chans, panic ∙ v.calm, subs, next)

  pub broadcast-IsSound : (m : M) (h : Hub M) → IsSound h → IsSound (broadcast m h)
  broadcast-IsSound m h v =
      let (chans, calm, subs, next) = broadcast_lem m h v in
      record {
        open_chans = λ k e. ground (arith, chans k, subs, v.open_chans k);
        made = λ k e. ground (arith, subs, next, v.made k);
        distinct = rw subs v.distinct;
        bounded = λ k.
            ground
              (arith, chans k, v.bounded k, λ (m' : M). length-append (h.chans k).buffer (m ∷ []));
        calm = calm;
      }

  pub subscribe-IsSound : (h : Hub M) → IsSound h → IsSound (subscribe h).0
  unfolding subscribe
  subscribe-IsSound h v = record {
    open_chans = λ k e. ground (arith, contains-append k h.next_chan h.subscribers, v.open_chans k);
    made = λ k e. ground (arith, contains-append k h.next_chan h.subscribers, v.made k);
    distinct =
        Distinct-append h.next_chan h.subscribers (ground (arith, v.made h.next_chan)) v.distinct;
    bounded = λ k. ground (arith, v.bounded k);
    calm = v.calm;
  }

  pub unsubscribe-IsSound :
      (k : ℕ) (h : Hub M) → contains k h.subscribers ≡ true → IsSound h → IsSound (unsubscribe k h)
  unfolding unsubscribe close_chan
  unsubscribe-IsSound k h c v = record {
    open_chans =
        λ j e. ground (arith, contains-without j k h.subscribers, v.open_chans j, v.open_chans k);
    made = λ j e. ground (arith, contains-without j k h.subscribers, v.made j, v.open_chans k);
    distinct = ground (arith, Distinct-without k h.subscribers v.distinct, v.open_chans k);
    bounded = λ j. ground (arith, v.bounded j, v.bounded k, v.open_chans k);
    calm = ground (arith, v.open_chans k, v.calm);
  }
