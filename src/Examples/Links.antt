-- ===== src/Examples/Links.antt =====
-- A client that loses and finds its host.
use rom_go_app.Prelude.{ℕ, ◌+◌, ◌≡◌, refl, true, false, none, some, List, [], ◌∷◌, arith}
use rom_go_app.Rosbridge.Client.{
  Client, new_client, connect, disconnect, read_error, dial_url, close,
}
use rom_go_app.Rosbridge.Client.Lifecycle.Link.{link}
use rom_go_app.Rosbridge.Client.Lifecycle.Steps.{
  Event, connects, read_fails, receives, reconnect_fires, connected_runs, publisher_ticks, drives,
  disconnects, step, run,
}
use rom_go_app.Rosbridge.Client.Lifecycle.Invariant.{
  IsServed, IsLive, run-new_client-IsServed, connect-run-IsLive,
}
use rom_go_app.Rosbridge.Client.Lifecycle.Leaks.{
  flaps, flaps-publishers, stale_reader, disconnect-reconnect,
}
use rom_go_app.Examples.{fl, codec, net, dial, idle, live, twist}

-- The host answers, is driven, is lost, and comes back.
abbrev turns : List (Event ℕ)
turns =
    connected_runs
    ∷ receives []
    ∷ drives (twist 2)
    ∷ publisher_ticks
    ∷ read_fails
    ∷ reconnect_fires (λ _. none)
    ∷ reconnect_fires dial
    ∷ publisher_ticks
    ∷ []

run-new_client-IsServed_example :
    IsServed (link (run fl codec net (new_client fl "/r1" "10.0.0.1" 9090) (connects dial ∷ turns)))
run-new_client-IsServed_example =
    run-new_client-IsServed fl codec net "/r1" "10.0.0.1" 9090 (connects dial ∷ turns)

connect-run-IsLive_example : IsLive (link (run fl codec net (connect dial idle).0 turns))
connect-run-IsLive_example =
    connect-run-IsLive fl codec net dial idle turns
      (tt, (tt, (tt, (tt, (tt, (tt, (tt, (tt, tt))))))))

live_reached : dial (dial_url live) ≡ some 7
unfolding dial_url new_client
live_reached = refl

idle_reached : dial (dial_url idle) ≡ some 7
unfolding dial_url new_client
idle_reached = refl

flaps-publishers_example :
    ((flaps dial 3 live).connected ≡ true)
    × ((flaps dial 3 live).publishers ≡ live.publishers + 3)
    × (dial_url (flaps dial 3 live) ≡ dial_url live)
flaps-publishers_example = flaps-publishers dial 7 3 live live_reached refl

stale_reader_example :
    let d = read_error (connect dial (disconnect true live)).0 in
    (d.connected ≡ false)
    × (d.conn ≡ some 7)
    × (d.closed_sockets ≡ close live.conn live.closed_sockets)
    × (d.reconnects ≡ live.reconnects + 1)
stale_reader_example = stale_reader dial 7 true live live_reached refl

-- A connected client with its read loop.
abbrev served : Client ℕ
served = record live { readers = 1 }

disconnect-reconnect_example :
    let waiting =
      run fl codec net served (read_fails ∷ disconnects true ∷ disconnects false ∷ []) in
    let back = step fl codec net waiting (reconnect_fires dial) in
    ((waiting.connected ≡ false) × (waiting.reconnects ≡ served.reconnects + 1))
    × ((back.connected ≡ true)
        × (back.conn ≡ some 7)
        × (back.reconnects ≡ served.reconnects)
        × (back.readers ≡ waiting.readers + 1)
        × (back.publishers ≡ served.publishers + 1))
unfolding new_client dial_url
disconnect-reconnect_example =
    disconnect-reconnect fl codec net dial 7 (true ∷ false ∷ []) served live_reached refl
      (omega arith)
