-- ===== src/Navigation/Edits.antt =====
-- The edits of a robot's navigation points: the names stay in order, and what was added can be
-- taken away again.
use rom_go_app.Prelude.{
  ◌≡◌, refl, sym, subst, ◌∙◌, inl, inr, String, false, Option, none, List, [], ◌∷◌, ◌++◌, Float64,
  arith, ◌=?◌, eq_iff, Bool-cases,
}
use rom_go_app.Rosbridge.Types.{NavigationPoint}
use rom_go_app.Robot.{Robot}
use rom_go_app.Navigation.{
  NavError, has_name, clear_waypoints, clear_service_points, clear_patrol_points, clear_path_points,
  delete_point,
}
use rom_go_app.Navigation.Names.{
  Kind, waypoint, service_point, patrol_point, path_point, api_name, points, with_points,
  clear_points, NamesOk, WellNamed, delete_point_lem, append-NamesOk, remove_by_name-append,
  add_point, new_point, add_point_lem,
}

module _ {F : Type 0} where
  pub with_points-WellNamed :
      (k : Kind) (pts : List (NavigationPoint F)) (r : Robot F)
      → NamesOk pts
      → WellNamed r
      → WellNamed (with_points k pts r)
  with_points-WellNamed waypoint pts r h v waypoint = h
  with_points-WellNamed waypoint pts r h v service_point = v service_point
  with_points-WellNamed waypoint pts r h v patrol_point = v patrol_point
  with_points-WellNamed waypoint pts r h v path_point = v path_point
  with_points-WellNamed service_point pts r h v waypoint = v waypoint
  with_points-WellNamed service_point pts r h v service_point = h
  with_points-WellNamed service_point pts r h v patrol_point = v patrol_point
  with_points-WellNamed service_point pts r h v path_point = v path_point
  with_points-WellNamed patrol_point pts r h v waypoint = v waypoint
  with_points-WellNamed patrol_point pts r h v service_point = v service_point
  with_points-WellNamed patrol_point pts r h v patrol_point = h
  with_points-WellNamed patrol_point pts r h v path_point = v path_point
  with_points-WellNamed path_point pts r h v waypoint = v waypoint
  with_points-WellNamed path_point pts r h v service_point = v service_point
  with_points-WellNamed path_point pts r h v patrol_point = v patrol_point
  with_points-WellNamed path_point pts r h v path_point = h

  pub clear_points-WellNamed : (k : Kind) (r : Robot F) → WellNamed r → WellNamed (clear_points k r)
  unfolding clear_waypoints clear_service_points clear_patrol_points clear_path_points
  clear_points-WellNamed waypoint r v = with_points-WellNamed waypoint [] r tt v
  clear_points-WellNamed service_point r v = with_points-WellNamed service_point [] r tt v
  clear_points-WellNamed patrol_point r v = with_points-WellNamed patrol_point [] r tt v
  clear_points-WellNamed path_point r v = with_points-WellNamed path_point [] r tt v

  points-with_points :
      (k : Kind) (pts qts : List (NavigationPoint F)) (r : Robot F)
      → (points k (with_points k pts r) ≡ pts)
        × (with_points k qts (with_points k pts r) ≡ with_points k qts r)
        × (with_points k (points k r) r ≡ r)
  points-with_points waypoint pts qts r = (refl, refl, refl)
  points-with_points service_point pts qts r = (refl, refl, refl)
  points-with_points patrol_point pts qts r = (refl, refl, refl)
  points-with_points path_point pts qts r = (refl, refl, refl)

module _ {F : Type 0} (fl : Float64 F) where
  pub add_point-WellNamed :
      (k : Kind) (name : String) (x y theta : F) (r : Robot F)
      → WellNamed r
      → WellNamed (add_point fl k name x y theta r).0
  add_point-WellNamed k name x y theta r v =
      subst (λ (o : Robot F × Option NavError). WellNamed o.0)
        (sym (add_point_lem fl k name x y theta r))
        (elim (Bool-cases (name =? "")) [
          | inl empty ↦ rw empty v
          | inr named ↦ rw named (elim (Bool-cases (has_name name (points k r))) [
            | inl taken ↦ rw taken v
            | inr free ↦ rw free (
                with_points-WellNamed k _ r
                  (append-NamesOk (points k r) (new_point fl name x y theta)
                    (ground (arith, eq_iff name "")) free (v k))
                  v)
          ])
        ])

  added :
      (k : Kind) (name : String) (x y theta : F) (r : Robot F)
      → (add_point fl k name x y theta r).1 ≡ none
      → (has_name name (points k r) ≡ false)
        × ((add_point fl k name x y theta r).0
            ≡ with_points k (points k r ++ new_point fl name x y theta ∷ []) r)
  added k name x y theta r ok = ground (arith, add_point_lem fl k name x y theta r)

  -- A point that was added is taken away again by its kind and name: the robot is as before.
  pub delete-add_point :
      (k : Kind) (name : String) (x y theta : F) (r : Robot F)
      → (add_point fl k name x y theta r).1 ≡ none
      → delete_point (api_name k) name (add_point fl k name x y theta r).0 ≡ r
  delete-add_point k name x y theta r ok =
      let pt = new_point fl name x y theta in
      let (free, after) = added k name x y theta r ok in
      let (read, written, same) = points-with_points k (points k r ++ pt ∷ []) (points k r) r in
      rw
        (
          after,
          delete_point_lem k name (with_points k (points k r ++ pt ∷ []) r),
          read,
          remove_by_name-append (points k r) pt name refl free,
        )
        (written ∙ same)
