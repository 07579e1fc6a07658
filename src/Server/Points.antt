-- ===== src/Server/Points.antt =====
-- What the edits of navigation points keep of the current robot.
use rom_go_app.Prelude.{refl, String, Option, none, some, Float64, arith}
use rom_go_app.Rosbridge.Client.{Client}
use rom_go_app.Robot.{Robot, import_points}
use rom_go_app.Navigation.{
  add_waypoint, add_service_point, add_patrol_point, add_path_point, validate_and_create, existing,
  add_wall_obstacle, delete_point,
}
use rom_go_app.Navigation.Names.{
  Kind, waypoint, service_point, patrol_point, path_point, add_point, remove_by_name-NamesOk,
}
use rom_go_app.Navigation.Edits.{add_point-WellNamed}
use rom_go_app.Manager.Updates.{KeepsIdentity}
use rom_go_app.Api.Points.{
  PointType, listed, wall, invalid_type, PointForm, ImportPayload, add_typed_point, with_a_client,
  import_payload,
}
use rom_go_app.Api.{Status}
use rom_go_app.Server.Kept.{Follows, stays_put, Listed-WellNamed, WellNamed-Listed, Kept}
use rom_go_app.Server.Robots.{unchanged-Kept, own-Kept}
use rom_go_app.Prelude.{◌≡◌}

module _ {F : Type 0} where
  delete_point-client :
      (type_name name : String) (r : Robot F) → (delete_point type_name name r).client ≡ r.client
  unfolding delete_point
  delete_point-client type_name name r = ground arith

  pub import_payload-KeepsIdentity :
      (body : Option (ImportPayload F)) → KeepsIdentity (λ r. (import_payload body r).0)
  unfolding import_payload import_points
  import_payload-KeepsIdentity none r = (refl, refl, refl)
  import_payload-KeepsIdentity (some p) r = (ground arith, ground arith, ground arith)

  pub import_payload-client :
      (body : Option (ImportPayload F)) (r : Robot F) → (import_payload body r).0.client ≡ r.client
  unfolding import_payload import_points
  import_payload-client none r = refl
  import_payload-client (some p) r = ground arith

module _ {F : Type 0} (fl : Float64 F) (meanwhile : Client F → Client F) where
  pub delete_point-Kept :
      (type_name name : String) → Kept fl meanwhile (delete_point type_name name)
  unfolding delete_point
  delete_point-Kept type_name name =
      own-Kept fl meanwhile (delete_point type_name name)
        (λ r. (ground arith, ground arith, ground arith))
        (λ r v. ground (
          arith,
          remove_by_name-NamesOk r.waypoints name,
          remove_by_name-NamesOk r.service_points name,
          remove_by_name-NamesOk r.patrol_points name,
          remove_by_name-NamesOk r.path_points name,
        ))
        (delete_point-client type_name name)

  with_a_client-Follows :
      (c : Option (Client F)) (f : Robot F → Robot F × Status) (r : Robot F)
      → Follows fl r.client (f r).0.client
      → Follows fl r.client (with_a_client c f r).0.client
  with_a_client-Follows none f r m = stays_put fl r.client
  with_a_client-Follows (some _) f r m = m

  pub with_a_client-Kept :
      (f : Robot F → Robot F × Status)
      → Kept fl meanwhile (λ r. (f r).0)
      → Kept fl meanwhile (λ r. (with_a_client r.client f r).0)
  with_a_client-Kept f k = (
    λ r. ground (arith, k.0 r),
    λ r v. ground (arith, k.1 r v),
    λ w r. with_a_client-Follows r.client f r (k.2 w r),
  )

module _ {F : Type 0} (fl : Float64 F) (meanwhile : Client F → Client F) where
  add_point-KeepsIdentity :
      (k : Kind) (name : String) (x y theta : F)
      → KeepsIdentity (λ r. (add_point fl k name x y theta r).0)
  unfolding add_waypoint add_service_point add_patrol_point add_path_point validate_and_create
      existing
  add_point-KeepsIdentity waypoint name x y theta r = (ground arith, ground arith, ground arith)
  add_point-KeepsIdentity service_point name x y theta r =
      (ground arith, ground arith, ground arith)
  add_point-KeepsIdentity patrol_point name x y theta r = (ground arith, ground arith, ground arith)
  add_point-KeepsIdentity path_point name x y theta r = (ground arith, ground arith, ground arith)

  add_point-client :
      (k : Kind) (name : String) (x y theta : F) (r : Robot F)
      → (add_point fl k name x y theta r).0.client ≡ r.client
  unfolding add_waypoint add_service_point add_patrol_point add_path_point validate_and_create
      existing
  add_point-client waypoint name x y theta r = ground arith
  add_point-client service_point name x y theta r = ground arith
  add_point-client patrol_point name x y theta r = ground arith
  add_point-client path_point name x y theta r = ground arith

  add_wall_obstacle-Kept :
      (name : String) (x1 y1 x2 y2 : F)
      → Kept fl meanwhile (λ r. (add_wall_obstacle fl name x1 y1 x2 y2 r).0)
  unfolding add_wall_obstacle
  add_wall_obstacle-Kept name x1 y1 x2 y2 =
      own-Kept fl meanwhile (λ r. (add_wall_obstacle fl name x1 y1 x2 y2 r).0)
        (λ r. (ground arith, ground arith, ground arith)) (λ r v. ground arith) (λ r. ground arith)

  pub add_typed_point-Kept :
      (t : PointType) (p : PointForm F) → Kept fl meanwhile (λ r. (add_typed_point fl t p r).0)
  unfolding add_typed_point
  add_typed_point-Kept (listed k) p =
      own-Kept fl meanwhile (λ r. (add_point fl k p.name p.x p.y p.theta r).0)
        (add_point-KeepsIdentity k p.name p.x p.y p.theta)
        (λ r v.
          WellNamed-Listed _
            (add_point-WellNamed fl k p.name p.x p.y p.theta r (Listed-WellNamed r v)))
        (add_point-client k p.name p.x p.y p.theta)
  add_typed_point-Kept wall p = add_wall_obstacle-Kept p.name p.x p.y p.x2 p.y2
  add_typed_point-Kept invalid_type p = unchanged-Kept fl meanwhile
