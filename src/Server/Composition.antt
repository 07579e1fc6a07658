-- ===== src/Server/Composition.antt =====
-- What follows for all runs of the server from its start: every event is one change of the registry.
use rom_go_app.Prelude.{
  ℕ, ◌+◌, ◌<◌, ◌≡◌, String, true, some, List, [], ◌∷◌, Float64, arith, length, int_half, All,
}
use rom_go_app.Robot.{Robot, new_robot}
use rom_go_app.Navigation.Names.{WellNamed}
use rom_go_app.Manager.{Manager, new_manager, get_robot}
use rom_go_app.Manager.Invariant.{Registry, new_manager-Registry}
use rom_go_app.Manager.Evolution.{Throughout, evolve-Registry, evolve-next_id, evolve-Throughout}
use rom_go_app.Server.{Env, Event, step, run}
use rom_go_app.Server.Kept.{Sound, Listed-WellNamed}
use rom_go_app.Server.Events.{CheckedEvent, step-Changes}
use rom_go_app.Server.Kept.{Watch, nothing, names, links, Allows, Linked}
use rom_go_app.Rosbridge.Client.{Client, new_client}
use rom_go_app.Rosbridge.Client.Lifecycle.Link.{link}
use rom_go_app.Rosbridge.Client.Lifecycle.Invariant.{IsServed}
use rom_go_app.Rosbridge.Client.Lifecycle.Moves.{Moving}
use rom_go_app.Prelude.{some-injective, refl, subst}

module _ {F : Type 0} (fl : Float64 F) where
  new_client-IsServed :
      (ns ip : String) (port : ℕ)
      → IsServed (link (record (new_client fl ns ip port) { wired = true }))
  unfolding new_client
  new_client-IsServed ns ip port = record {
    socket = λ up. cc;
    ticker = λ up. cc;
    reader = λ up. cc;
    publisher = λ up. cc;
  }

  new_robot-Linked : (id ns name ip : String) (port : ℕ) → Linked (new_robot fl id ns name ip port)
  unfolding new_robot new_client
  new_robot-Linked id ns name ip port c e =
      subst (λ (d : Client F). (d.host ≡ ip) × (d.port ≡ port) × IsServed (link d))
        (some-injective _ c e) (refl, refl, new_client-IsServed ns ip port)

  new_robot-Sound :
      (watch : Watch) (id ns name ip : String) (port : ℕ)
      → Sound watch (new_robot fl id ns name ip port)
  unfolding new_robot
  new_robot-Sound nothing id ns name ip port = tt
  new_robot-Sound names id ns name ip port = (tt, tt, tt, tt)
  new_robot-Sound links id ns name ip port = new_robot-Linked id ns name ip port

  -- What an event must be for a run that is watched.
  abbrev Fits : Watch → Env F × Event F → Type 0
  Fits watch e = CheckedEvent watch e.1 × Allows fl watch e.0.meanwhile

  any_Fits : (es : List (Env F × Event F)) → All (Fits nothing) es
  any_Fits [] = tt
  any_Fits (e ∷ es) = ((tt, tt), any_Fits es)

  Moving-Fits :
      (es : List (Env F × Event F)) → All (λ e. Moving fl e.0.meanwhile) es → All (Fits links) es
  Moving-Fits [] m = tt
  Moving-Fits (e ∷ es) (m, ms) = ((tt, m), Moving-Fits es ms)

  named_Fits :
      (es : List (Env F × Event F)) → All (λ e. CheckedEvent names e.1) es → All (Fits names) es
  named_Fits [] c = tt
  named_Fits (e ∷ es) (c, cs) = ((c, tt), named_Fits es cs)

module _ {F : Type 0} (fl : Float64 F) (watch : Watch) where
  run-Changes :
      (es : List (Env F × Event F)) (m : Manager F)
      → All (Fits fl watch) es
      → m.next_id + length es < int_half
      → Registry m
      → Throughout (Sound watch) m
      → Registry (run fl es m) × Throughout (Sound watch) (run fl es m)
  unfolding run
  run-Changes [] m c low v all = (v, all)
  run-Changes ((env, e) ∷ es) m ((c, a), cs) low v all =
      let change = step-Changes fl watch env e m c a in
      let next = evolve-next_id fl (Sound watch) m (step fl env e m) change (omega arith) in
      run-Changes es (step fl env e m) cs (omega arith)
        (evolve-Registry fl (Sound watch) m (step fl env e m) change (omega arith) v)
        (evolve-Throughout fl (Sound watch) m (step fl env e m) change (new_robot-Sound fl watch)
          all)

module _ {F : Type 0} (fl : Float64 F) where
  -- The server from its start, after fewer than 2 ^ 63 - 1 HTTP requests, commands of browsers,
  -- callbacks, turns of the robots' goroutines and shutdowns in any order, whatever they hold:
  -- robots stand under their own ids, no two robots share an address, and the current id is that of
  -- a robot, or empty if there is none.
  pub run-new_server-Registry :
      (es : List (Env F × Event F)) → 1 + length es < int_half → Registry (run fl es new_manager)
  unfolding new_manager get_robot
  run-new_server-Registry es low =
      (run-Changes fl nothing es new_manager (any_Fits fl es) low new_manager-Registry
        (λ k r e. cc)).0

  -- The server from its start, after fewer than 2 ^ 63 - 1 events, of which no request goes to the
  -- path of the import: the names of every robot's navigation points are not empty, and differ
  -- within each of its four lists.
  pub run-new_server-WellNamed :
      (es : List (Env F × Event F))
      → All (λ e. CheckedEvent names e.1) es
      → 1 + length es < int_half
      → (id : String) (r : Robot F) → get_robot id (run fl es new_manager) ≡ some r
      → WellNamed r
  unfolding new_manager get_robot
  run-new_server-WellNamed es named low id r e = Listed-WellNamed r (
      (run-Changes fl names es new_manager (named_Fits fl es named) low new_manager-Registry
          (λ k s f. cc)).1
        id r e)

  -- The server from its start, after fewer than 2 ^ 63 - 1 events, where all that other goroutines do
  -- to a client while a call waits for its answer is a sequence of its turns, of the parts of other
  -- calls, and of the operations of its robot: the client of every robot dials that robot's own ip
  -- and port, and if it is connected it has a socket, a running ticker, and a read loop and a
  -- publisher that are alive.
  pub run-new_server-Linked :
      (es : List (Env F × Event F))
      → All (λ e. Moving fl e.0.meanwhile) es
      → 1 + length es < int_half
      → (id : String) (r : Robot F) → get_robot id (run fl es new_manager) ≡ some r
      → (c : Client F) → r.client ≡ some c
      → (c.host ≡ r.ip) × (c.port ≡ r.port) × IsServed (link c)
  unfolding new_manager get_robot
  run-new_server-Linked es moving low id r e =
      (run-Changes fl links es new_manager (Moving-Fits fl es moving) low new_manager-Registry
          (λ k s f. cc)).1
        id r e
