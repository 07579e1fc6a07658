-- ===== src/Hub/Delivery.antt =====
-- What a subscriber gets of the messages that are broadcast while it does not read.
use mathlib.Core.List.{append-nil, append_assoc}
use rom_go_app.Prelude.{
  ℕ, ◌≤◌, ◌≡◌, sym, ap, ◌∙◌, true, List, [], ◌∷◌, ◌++◌, arith, if◌then◌else◌, ltb, length, take,
  take-append-take, take_whole, take_full, length-append, ltb→lt, Bool-cases, inl, inr,
}
use rom_go_app.Hub.{Chan, Hub, capacity, contains, offer_each, broadcast}
use rom_go_app.Hub.Sound.{
  IsSound, Distinct, accept, broadcast-IsSound, broadcast_lem, offer_each_lem,
}

module _ {M : Type 0} where
  unfoldable pub broadcast_all : List M → Hub M → Hub M
  broadcast_all [] h = h
  broadcast_all (m ∷ ms) h = broadcast_all ms (broadcast m h)

  accept-take :
      (m : M) (ch : Chan M)
      → length ch.buffer ≤ capacity
      → (accept m ch).buffer ≡ take capacity (ch.buffer ++ m ∷ [])
  accept-take m ch h = elim (Bool-cases (ltb (length ch.buffer) capacity)) [
    | inl room ↦ rw room (
        sym (
          take_whole _ capacity (
            omega
              (arith, ltb→lt (length ch.buffer) capacity room, length-append ch.buffer (m ∷ [])))))
    | inr full ↦ rw full (sym (take_full capacity ch.buffer (m ∷ []) (ground arith)))
  ]

  -- In a sound hub, the messages that were already in the channel of a subscriber and those that
  -- are broadcast are kept in order, as many as the channel has room for from the oldest on; what
  -- comes later is lost.
  pub broadcast_all-buffer :
      (k : ℕ) (ms : List M) (h : Hub M)
      → IsSound h
      → contains k h.subscribers ≡ true
      → ((broadcast_all ms h).chans k).buffer ≡ take capacity ((h.chans k).buffer ++ ms)
  unfolding broadcast_all
  broadcast_all-buffer k [] h v c =
      sym (rw append-nil (take_whole (h.chans k).buffer capacity (v.bounded k)))
  broadcast_all-buffer k (m ∷ ms) h v c =
      let (chans, _, subs, _) = broadcast_lem m h v in
      let buffer : ((broadcast m h).chans k).buffer ≡ take capacity ((h.chans k).buffer ++ m ∷ []) =
        ap (λ ch. ch.buffer) (chans k)
        ∙ ap (λ b. (if b then accept m (h.chans k) else h.chans k).buffer) c
        ∙ accept-take m (h.chans k) (v.bounded k) in
      broadcast_all-buffer k ms (broadcast m h) (broadcast-IsSound m h v) (ap (contains k) subs ∙ c)
      ∙ ap (λ b. take capacity (b ++ ms)) buffer
      ∙ take-append-take capacity ((h.chans k).buffer ++ m ∷ []) ms
      ∙ ap (take capacity) (append_assoc (h.chans k).buffer (m ∷ []) ms)

  -- In a sound hub, the order in which the set of subscribers is visited, each once, makes no
  -- difference to any channel.
  pub offer_each-order :
      (m : M) (ks ks' : List ℕ) (h : Hub M)
      → IsSound h
      → Distinct ks
      → Distinct ks'
      → ((j : ℕ) → contains j ks ≡ contains j h.subscribers)
      → ((j : ℕ) → contains j ks' ≡ contains j h.subscribers)
      → (j : ℕ) → (offer_each m ks h).chans j ≡ (offer_each m ks' h).chans j
  offer_each-order m ks ks' h v d d' s s' j =
      let (chans, _, _, _) = offer_each_lem m ks h d (λ k c. v.open_chans k (sym (s k) ∙ c)) in
      let (chans', _, _, _) = offer_each_lem m ks' h d' (λ k c. v.open_chans k (sym (s' k) ∙ c)) in
      ground (arith, chans j, chans' j, s j, s' j)
