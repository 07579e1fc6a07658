-- ===== src/Rosbridge/Client/Lifecycle/Leaks.antt =====
-- What goes wrong when connections are lost, replaced or given up.
use rom_go_app.Prelude.{
  ℕ, zero, suc, ◌+◌, ◌<◌, ◌≡◌, refl, ◌∙◌, ap, Bool, true, false, some, List, [], ◌∷◌, map, Float64,
  arith,
}
use rom_go_app.Rosbridge.Codec.{Codec}
use rom_go_app.Rosbridge.Client.Lifecycle.Steps.{
  read_fails, disconnects, reconnect_fires, step, run,
}
use rom_go_app.Rosbridge.Client.{
  Client, Dialer, Network, connect, disconnect, read_error, schedule_reconnect, dial_url, close,
}

module _ {F : Type 0} where
  -- A loss of the connection that the read loop notices, and the reconnect that follows it.
  abbrev pub flap : Dialer → Client F → Client F
  flap dial c = schedule_reconnect dial (read_error c)

  abbrev pub flaps : Dialer → ℕ → Client F → Client F
  flaps dial zero c = c
  flaps dial (suc n) c = flap dial (flaps dial n c)

  flap_lem :
      (dial : Dialer) (socket : ℕ) (c : Client F)
      → dial (dial_url c) ≡ some socket
      → c.connected ≡ true
      → ((flap dial c).connected ≡ true)
        × ((flap dial c).publishers ≡ c.publishers + 1)
        × (dial_url (flap dial c) ≡ dial_url c)
  unfolding schedule_reconnect read_error connect dial_url
  flap_lem dial socket c d e = ground arith

  -- The publisher of a lost connection is never stopped: after `n` losses of the connection of a
  -- connected client, each followed by a reconnect that succeeds, the client has `n` more
  -- publisher goroutines than before.
  pub flaps-publishers :
      (dial : Dialer) (socket : ℕ) (n : ℕ) (c : Client F)
      → dial (dial_url c) ≡ some socket
      → c.connected ≡ true
      → ((flaps dial n c).connected ≡ true)
        × ((flaps dial n c).publishers ≡ c.publishers + n)
        × (dial_url (flaps dial n c) ≡ dial_url c)
  flaps-publishers dial socket zero c d e = (e, omega arith, refl)
  flaps-publishers dial socket (suc n) c d e =
      let (up, count, url) = flaps-publishers dial socket n c d e in
      let (up', count', url') = flap_lem dial socket (flaps dial n c) (rw url d) up in
      (up', omega arith, url' ∙ url)

  -- A read loop outlives `Disconnect`. If a connected client is disconnected and connected anew,
  -- and only then the old loop sees its error, that error is charged to the new connection: the
  -- client says that it is not connected, the new socket stays open, and a reconnect is scheduled.
  pub stale_reader :
      (dial : Dialer) (socket : ℕ) (stop_taken : Bool) (c : Client F)
      → dial (dial_url c) ≡ some socket
      → c.connected ≡ true
      → let d = read_error (connect dial (disconnect stop_taken c)).0 in
        (d.connected ≡ false)
        × (d.conn ≡ some socket)
        × (d.closed_sockets ≡ close c.conn c.closed_sockets)
        × (d.reconnects ≡ c.reconnects + 1)
  unfolding read_error connect disconnect dial_url
  stale_reader dial socket stop_taken c d e = ground arith

  disconnect-offline :
      (stop_taken : Bool) (c : Client F) → c.connected ≡ false → disconnect stop_taken c ≡ c
  unfolding disconnect
  disconnect-offline stop_taken c e = ground arith

module _ {F : Type 0} (fl : Float64 F) (codec : Codec F) (net : Network F) where
  disconnects-offline :
      (stops : List Bool) (c : Client F)
      → c.connected ≡ false
      → run fl codec net c (map disconnects stops) ≡ c
  unfolding run step
  disconnects-offline [] c e = refl
  disconnects-offline (stop_taken ∷ stops) c e =
      ap (λ d. run fl codec net d (map disconnects stops)) (disconnect-offline stop_taken c e)
      ∙ disconnects-offline stops c e

  lost-reconnect :
      (dial : Dialer) (socket : ℕ) (c : Client F)
      → dial (dial_url c) ≡ some socket
      → c.connected ≡ true
      → 0 < c.readers
      → let waiting = step fl codec net c read_fails in
        let back = step fl codec net waiting (reconnect_fires dial) in
        ((waiting.connected ≡ false) × (waiting.reconnects ≡ c.reconnects + 1))
        × ((back.connected ≡ true)
            × (back.conn ≡ some socket)
            × (back.reconnects ≡ c.reconnects)
            × (back.readers ≡ waiting.readers + 1)
            × (back.publishers ≡ c.publishers + 1))
  unfolding step read_error schedule_reconnect connect dial_url
  lost-reconnect dial socket c d e some_reader = ground arith

  -- `Disconnect` does not cancel a reconnect. The read loop of a connected client sees an error,
  -- and `Disconnect` is then called any number of times, with which the client still waits to
  -- reconnect as it did after the error. When the reconnect fires and the host answers, the client
  -- is connected by the new socket, with one more read loop and one more publisher than it had
  -- while it waited.
  pub disconnect-reconnect :
      (dial : Dialer) (socket : ℕ) (stops : List Bool) (c : Client F)
      → dial (dial_url c) ≡ some socket
      → c.connected ≡ true
      → 0 < c.readers
      → let waiting = run fl codec net c (read_fails ∷ map disconnects stops) in
        let back = step fl codec net waiting (reconnect_fires dial) in
        ((waiting.connected ≡ false) × (waiting.reconnects ≡ c.reconnects + 1))
        × ((back.connected ≡ true)
            × (back.conn ≡ some socket)
            × (back.reconnects ≡ c.reconnects)
            × (back.readers ≡ waiting.readers + 1)
            × (back.publishers ≡ c.publishers + 1))
  unfolding run
  disconnect-reconnect dial socket stops c d e some_reader =
      rw
        (disconnects-offline stops (step fl codec net c read_fails)
          (lost-reconnect dial socket c d e some_reader).0.0)
        (lost-reconnect dial socket c d e some_reader)
