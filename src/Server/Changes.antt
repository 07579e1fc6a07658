-- ===== src/Server/Changes.antt =====
-- A change of one robot that a handler makes is one change of the registry.
use rom_go_app.Prelude.{String, Option, Float64, Option-cases, inl, inr}
use rom_go_app.Rosbridge.Client.{Client}
use rom_go_app.Robot.{Robot, with_client}
use rom_go_app.Manager.{Manager, get_current_robot, update_robot}
use rom_go_app.Prelude.{[]}
use rom_go_app.Hub.Delivery.{broadcast_all}
use rom_go_app.Manager.Evolution.{Evolves, announces, updates, Keeps}
use rom_go_app.Api.{Status}
use rom_go_app.Api.Current.{on_current}
use rom_go_app.Api.Points.{import_payload, ImportPayload}
use rom_go_app.Server.{Handler, nav_import}
use rom_go_app.Server.Kept.{
  Watch, nothing, names, links, Linked, Follows, stays_put, keeps-Linked, Allows, Sound, Kept,
  Kept-Sound,
}
use rom_go_app.Server.Robots.{with_client-Kept}
use rom_go_app.Prelude.{sym, subst}
use rom_go_app.Rosbridge.Client.Lifecycle.Moves.{Moving}
use rom_go_app.Server.Points.{import_payload-KeepsIdentity, import_payload-client}

-- A request that is not an import, or any request where the names are not asked for.
abbrev pub Checked : Watch → Handler → Type 0
Checked names nav_import = ⊥
Checked _ _ = Unit

module _ {F : Type 0} (fl : Float64 F) where
  import_payload-Linked :
      (body : Option (ImportPayload F)) (r : Robot F) → Linked r → Linked (import_payload body r).0
  import_payload-Linked body =
      keeps-Linked fl (λ r. (import_payload body r).0) (import_payload-KeepsIdentity body)
        (λ r.
          subst (Follows fl r.client) (sym (import_payload-client body r)) (stays_put fl r.client))

  pub import_payload-Keeps :
      (watch : Watch) (body : Option (ImportPayload F))
      → Checked watch nav_import
      → Keeps (Sound watch) (λ r. (import_payload body r).0)
  import_payload-Keeps nothing body c = (import_payload-KeepsIdentity body, λ r v. tt)
  import_payload-Keeps names body c = absurd c
  import_payload-Keeps links body c =
      (import_payload-KeepsIdentity body, import_payload-Linked body)

module _ {F : Type 0} (fl : Float64 F) (watch : Watch) where
  abbrev pub Changes : Manager F → Manager F → Type 0
  Changes = Evolves fl (Sound watch)

  pub stays : (m : Manager F) → Changes m m
  unfolding broadcast_all
  stays m = announces []

  pub update_robot-Changes :
      (meanwhile : Client F → Client F) (id : String) (f : Robot F → Robot F) (m : Manager F)
      → Allows fl watch meanwhile
      → Kept fl meanwhile f
      → Changes m (update_robot id f m)
  unfolding broadcast_all
  update_robot-Changes meanwhile id f m a k = updates id f [] (Kept-Sound fl watch meanwhile f a k)

  pub told-Changes :
      (meanwhile : Client F → Client F) (id : String) (call : Client F → Client F) (m : Manager F)
      → Allows fl watch meanwhile
      → (Moving fl meanwhile → Moving fl call)
      → Changes m (update_robot id (with_client call) m)
  told-Changes meanwhile id call m a k =
      update_robot-Changes meanwhile id (with_client call) m a
        (with_client-Kept fl meanwhile call k)

  pub current-Changes :
      (f : Robot F → Robot F × Status) (m : Manager F)
      → Keeps (Sound watch) (λ r. (f r).0)
      → Changes m (on_current f m).0
  unfolding on_current broadcast_all
  current-Changes f m k = elim (Option-cases (get_current_robot m)) [
    | inl e ↦ rw (e, on_current) (stays m)
    | inr (r, e) ↦ rw (e, on_current) (updates m.current_id (λ s. (f s).0) [] k)
  ]

  pub on_current-Changes :
      (meanwhile : Client F → Client F) (f : Robot F → Robot F × Status) (m : Manager F)
      → Allows fl watch meanwhile
      → Kept fl meanwhile (λ r. (f r).0)
      → Changes m (on_current f m).0
  on_current-Changes meanwhile f m a k =
      current-Changes f m (Kept-Sound fl watch meanwhile (λ r. (f r).0) a k)
