-- ===== src/Server/Sockets.antt =====
-- handlers/ws_handler.go: the sessions of browsers at the server. A session is a goroutine that reads
-- the browser's commands and one that writes the broadcasts to it; their rounds come in any order,
-- among the events of the server. What the reader itself answers to the browser (`Reply` in Browser)
-- does not show here.
pub mod Safety
pub mod Manned
pub mod Shut
pub mod Rounds
pub mod Ends
use rom_go_app.Prelude.{
  ℕ, Bool, true, false, Option, none, some, List, [], ◌∷◌, ◌++◌, Float64, if◌then◌else◌, ◌==◌,
}
use rom_go_app.Rosbridge.Codec.{Raw}
use rom_go_app.Hub.{Hub, subscribe}
use rom_go_app.Hub.Sessions.{Sessions, cleanup}
use rom_go_app.Manager.{BroadcastMsg, Manager, new_manager}
use rom_go_app.Browser.{Command, handle_ws_command}
use rom_go_app.Browser.Writer.{Round, Loop, goes_on, returned, writer_round}
use rom_go_app.Server.{Env}
use rom_go_app.Server as Server

-- The goroutines of one session: the loop of the writer, and whether the reader still loops.
pub record Session : Type 0 where
  pub writer : Loop
  pub reading : Bool

-- The registry, the sessions whose `closeOnce` has not run, and the goroutines of each session.
pub record Site (F : Type 0) : Type 0 where
  pub manager : Manager F
  pub live : List ℕ
  pub sessions : ℕ → Session

-- What happens at the server: an event of the registry, an upgrade of a request for a web socket that
-- succeeds or not, the end of a `ReadMessage`, with the message unless it fails, and a round of a
-- writer, at a time, with the case that `select` prefers and the success of `WriteJSON`.
pub data Event (F : Type 0) : Type 0 where
  serves : Env F → Server.Event F → Event F
  opens : Bool → Event F
  reads : Env F → ℕ → Option Raw → Event F
  writes : ℕ → ℕ → Bool → Bool → Event F

module _ {F : Type 0} where
  abbrev pub as_sessions : Site F → Sessions (BroadcastMsg F)
  as_sessions s = record { hub = s.manager.hub; live = s.live }

  abbrev pub with_sessions : Sessions (BroadcastMsg F) → Site F → Site F
  with_sessions t s = record s { manager = record s.manager { hub = t.hub }; live = t.live }

  abbrev pub set_session : ℕ → Session → Site F → Site F
  set_session k session s = record s { sessions = λ j. if j == k then session else s.sessions j }

  unfoldable pub start_site : Site F
  start_site = record {
    manager = new_manager;
    live = [];
    sessions = λ _. record { writer = returned; reading = false };
  }

  -- `WSHandler` until its two loops run.
  unfoldable pub ws_handler : Bool → Site F → Site F
  ws_handler false s = s
  ws_handler true s =
      let (h, k) = subscribe s.manager.hub in
      set_session k (record { writer = goes_on none; reading = true })
        (with_sessions (record { hub = h; live = s.live ++ k ∷ [] }) s)

  -- A round of the writer's goroutine, unless it has returned.
  abbrev write_on : ℕ → Round → Loop → Site F → Site F
  write_on k r returned s = s
  write_on k r (goes_on last) s =
      let (after, l) = writer_round k r last (as_sessions s) in
      set_session k (record (s.sessions k) { writer = l }) (with_sessions after s)

  unfoldable pub writer_turn : ℕ → Round → Site F → Site F
  writer_turn k r s = write_on k r (s.sessions k).writer s

module _ {F : Type 0} (fl : Float64 F) (decode : Raw → Option Command) where
  -- A command that cannot be decoded is skipped.
  abbrev pub obey : Env F → Option Command → Site F → Site F
  obey env none s = s
  obey env (some cmd) s = record s {
    manager =
        (handle_ws_command fl env.codec env.commands env.net env.now env.meanwhile env.stop_taken
          cmd s.manager).0;
  }

  -- What the loop does with the outcome of `ReadMessage`; `cleanup` is deferred.
  abbrev pub read_round : Env F → ℕ → Option Raw → Site F → Site F
  read_round env k none s =
      set_session k (record (s.sessions k) { reading = false })
        (with_sessions (cleanup k (as_sessions s)) s)
  read_round env k (some message) s = obey env (decode message) s

  unfoldable pub reader_turn : Env F → ℕ → Option Raw → Site F → Site F
  reader_turn env k message s = if (s.sessions k).reading then read_round env k message s else s

  unfoldable pub step : Event F → Site F → Site F
  step (serves env e) s = record s { manager = Server.step fl env e s.manager }
  step (opens upgraded) s = ws_handler upgraded s
  step (reads env k message) s = reader_turn env k message s
  step (writes k now takes_done written) s =
      writer_turn k (record { now = now; takes_done = takes_done; writes = written }) s

  unfoldable pub run : List (Event F) → Site F → Site F
  run [] s = s
  run (e ∷ es) s = run es (step e s)
