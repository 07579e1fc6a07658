-- ===== src/Examples/Sockets.antt =====
-- Two browsers at the server, of which one goes away.
use rom_go_app.Prelude.{
  ℕ, zero, suc, ◌<◌, ◌≤◌, ◌≡◌, refl, true, false, ◌⊎◌, inl, Option, none, some, List, [], ◌∷◌, All,
  arith, length,
}
use rom_go_app.Rosbridge.Codec.{Raw}
use rom_go_app.Hub.{
  capacity, contains, subscribe, unsubscribe, close_chan, offer, offer_each, broadcast, empty_hub,
}
use rom_go_app.Hub.Sessions.{cleanup}
use rom_go_app.Manager.{new_manager, add_robot, has_address}
use rom_go_app.Api.{add_robot_request, add_robot_at, port_of}
use rom_go_app.Browser.{Command}
use rom_go_app.Browser.Writer.{returned}
use rom_go_app.Server.{requests, route, robots_by_method, answer, respond}
use rom_go_app.Server as Server
use rom_go_app.Server.Sockets.{
  Event, serves, opens, reads, writes, start_site, ws_handler, reader_turn, step, run,
}
use rom_go_app.Server.Sockets.Safety.{run-start_site-no_panic}
use rom_go_app.Server.Sockets.Manned.{Loops, run-start_site-Loops}
use rom_go_app.Server.Sockets.Rounds.{FailsRead}
use rom_go_app.Server.Sockets.Ends.{run-start_site-returned}
use rom_go_app.Examples.{fl}
use rom_go_app.Examples.Browser.{driven}
use rom_go_app.Examples.Server.{env, request}

abbrev decode : Raw → Option Command
decode _ = some driven

-- A robot is added while both browsers are there; then the first one closes its web socket.
abbrev visits : List (Event ℕ)
visits =
    opens true
    ∷ opens true
    ∷ serves env (requests (request "POST" "/api/robots"))
    ∷ reads env 0 none
    ∷ []

abbrev writes_of : ℕ → List (Event ℕ)
writes_of zero = []
writes_of (suc n) = writes 0 5 false true ∷ writes_of n

abbrev later : List (Event ℕ)
later = reads env 1 (some []) ∷ reads env 0 none ∷ writes_of 101

run-start_site-no_panic_example :
    let h = (run fl decode visits start_site).manager.hub in
    (h.panicked ≡ false)
    × ((k : ℕ) → length (h.chans k).buffer ≤ capacity)
    × ((k : ℕ) → contains k h.subscribers ≡ true → (h.chans k).closed ≡ false)
run-start_site-no_panic_example = run-start_site-no_panic fl decode visits

second_subscribed : contains 1 (run fl decode visits start_site).manager.hub.subscribers ≡ true
unfolding run step ws_handler subscribe start_site new_manager empty_hub reader_turn cleanup
    unsubscribe close_chan Server.step respond answer route robots_by_method add_robot_request
    add_robot_at port_of add_robot has_address broadcast offer_each offer
second_subscribed = refl

run-start_site-Loops_example : Loops ((run fl decode visits start_site).sessions 1)
run-start_site-Loops_example = run-start_site-Loops fl decode visits 1 second_subscribed

first_made : 0 < (run fl decode visits start_site).manager.hub.next_chan
unfolding run step ws_handler subscribe start_site new_manager empty_hub reader_turn cleanup
    unsubscribe close_chan Server.step respond answer route robots_by_method add_robot_request
    add_robot_at port_of add_robot has_address broadcast offer_each offer
first_made = omega arith

first_ended :
    (((run fl decode visits start_site).sessions 0).reading ≡ false)
    ⊎ (((run fl decode visits start_site).sessions 0).writer ≡ returned)
unfolding run step ws_handler subscribe start_site new_manager empty_hub reader_turn
first_ended = inl refl

writes_of-FailsRead : (n : ℕ) → All (FailsRead 0) (writes_of n)
writes_of-FailsRead zero = tt
writes_of-FailsRead (suc n) = (tt, writes_of-FailsRead n)

later-FailsRead : All (FailsRead 0) later
later-FailsRead = (λ e. cc, (λ e. refl, writes_of-FailsRead 101))

run-start_site-returned_example :
    let s' = run fl decode later (run fl decode visits start_site) in
    ((s'.sessions 0).reading ≡ false) × ((s'.sessions 0).writer ≡ returned)
run-start_site-returned_example =
    run-start_site-returned fl decode visits later 0 first_made first_ended later-FailsRead
      (omega arith) (omega arith)
