-- ===== src/Navigation/Names.antt =====
-- The names of a robot's navigation points.
use rom_go_app.Prelude.{
  ◌≡◌, ◌≢◌, refl, inl, inr, String, true, false, Option, none, some, List, [], ◌∷◌, ◌++◌, Float64,
  arith, if◌then◌else◌, ◌=?◌, eq_iff, Bool-cases,
}
use rom_go_app.Rosbridge.Types.{NavigationPoint}
use rom_go_app.Robot.{Robot}
use rom_go_app.Navigation.{
  NavError, empty_name, duplicate_name, has_name, existing, remove_by_name, validate_and_create,
  add_waypoint, add_service_point, add_patrol_point, add_path_point, clear_waypoints,
  clear_service_points, clear_patrol_points, clear_path_points, delete_point,
}

-- The four lists of named points, and the names that the API and the validation have for them.
pub data Kind : Type 0 where
  waypoint service_point patrol_point path_point : Kind

abbrev pub api_name : Kind → String
api_name waypoint = "waypoint"
api_name service_point = "service_point"
api_name patrol_point = "patrol_point"
api_name path_point = "path_point"

abbrev pub check_name : Kind → String
check_name waypoint = "waypoint"
check_name service_point = "servicepoint"
check_name patrol_point = "patrolpoint"
check_name path_point = "pathpoint"

module _ {F : Type 0} where
  abbrev pub points : Kind → Robot F → List (NavigationPoint F)
  points waypoint r = r.waypoints
  points service_point r = r.service_points
  points patrol_point r = r.patrol_points
  points path_point r = r.path_points

  abbrev pub with_points : Kind → List (NavigationPoint F) → Robot F → Robot F
  with_points waypoint pts r = record r { waypoints = pts }
  with_points service_point pts r = record r { service_points = pts }
  with_points patrol_point pts r = record r { patrol_points = pts }
  with_points path_point pts r = record r { path_points = pts }

  abbrev pub clear_points : Kind → Robot F → Robot F
  clear_points waypoint = clear_waypoints
  clear_points service_point = clear_service_points
  clear_points patrol_point = clear_patrol_points
  clear_points path_point = clear_path_points

  -- Names that are not empty and differ from one another.
  abbrev pub NamesOk : List (NavigationPoint F) → Type 0
  NamesOk [] = Unit
  NamesOk (p ∷ pts) = (p.name ≢ "") × (has_name p.name pts ≡ false) × NamesOk pts

  abbrev pub WellNamed : Robot F → Type 0
  WellNamed r = (k : Kind) → NamesOk (points k r)

  existing-points : (k : Kind) (r : Robot F) → existing (check_name k) r ≡ points k r
  unfolding existing
  existing-points waypoint r = refl
  existing-points service_point r = refl
  existing-points patrol_point r = refl
  existing-points path_point r = refl

  pub delete_point_lem :
      (k : Kind) (name : String) (r : Robot F)
      → delete_point (api_name k) name r ≡ with_points k (remove_by_name (points k r) name) r
  unfolding delete_point
  delete_point_lem waypoint name r = refl
  delete_point_lem service_point name r = refl
  delete_point_lem patrol_point name r = refl
  delete_point_lem path_point name r = refl

  has_name-append :
      (n : String) (pts : List (NavigationPoint F)) (p : NavigationPoint F)
      → has_name n (pts ++ p ∷ []) ≡ (if p.name =? n then true else has_name n pts)
  unfolding has_name
  has_name-append n [] p = refl
  has_name-append n (q ∷ pts) p = ground (arith, has_name-append n pts p)

  has_name-remove_by_name :
      (n name : String) (pts : List (NavigationPoint F))
      → has_name n (remove_by_name pts name) ≡ (if name =? n then false else has_name n pts)
  unfolding has_name remove_by_name
  has_name-remove_by_name n name [] = ground arith
  has_name-remove_by_name n name (p ∷ pts) = ground (
    arith,
    has_name-remove_by_name n name pts,
    eq_iff p.name name,
    eq_iff p.name n,
    eq_iff name n,
  )

  pub append-NamesOk :
      (pts : List (NavigationPoint F)) (p : NavigationPoint F)
      → p.name ≢ ""
      → has_name p.name pts ≡ false
      → NamesOk pts
      → NamesOk (pts ++ p ∷ [])
  unfolding has_name
  append-NamesOk [] p n f v = (n, refl, tt)
  append-NamesOk (q ∷ pts) p n f v = (
    v.0,
    ground (arith, has_name-append q.name pts p, eq_iff q.name p.name, eq_iff p.name q.name),
    append-NamesOk pts p n (ground arith) v.2,
  )

  pub remove_by_name-NamesOk :
      (pts : List (NavigationPoint F)) (name : String)
      → NamesOk pts
      → NamesOk (remove_by_name pts name)
  unfolding remove_by_name
  remove_by_name-NamesOk [] name v = tt
  remove_by_name-NamesOk (p ∷ pts) name v = elim (Bool-cases (p.name =? name)) [
    | inl hit ↦ rw hit (remove_by_name-NamesOk pts name v.2)
    | inr keep ↦ rw keep (
      v.0,
      ground (arith, has_name-remove_by_name p.name name pts),
      remove_by_name-NamesOk pts name v.2,
    )
  ]

  -- Without the name in the list, what was appended under it is what is removed.
  pub remove_by_name-append :
      (pts : List (NavigationPoint F)) (p : NavigationPoint F) (name : String)
      → p.name ≡ name
      → has_name name pts ≡ false
      → remove_by_name (pts ++ p ∷ []) name ≡ pts
  unfolding has_name remove_by_name
  remove_by_name-append [] p name e f = ground (arith, eq_iff p.name name)
  remove_by_name-append (q ∷ pts) p name e f = ground (arith, remove_by_name-append pts p name e)

module _ {F : Type 0} (fl : Float64 F) where
  abbrev pub add_point : Kind → String → F → F → F → Robot F → Robot F × Option NavError
  add_point waypoint = add_waypoint fl
  add_point service_point = add_service_point fl
  add_point patrol_point = add_patrol_point fl
  add_point path_point = add_path_point fl

  -- The point that the validation makes.
  abbrev pub new_point : String → F → F → F → NavigationPoint F
  new_point name x y theta = record {
    name = name;
    image_x_px = fl.zero_float;
    image_y_px = fl.zero_float;
    image_theta_deg = fl.zero_float;
    world_x_m = x;
    world_y_m = y;
    world_theta_rad = theta;
  }

  -- A point is refused if its name is empty or stands in the list of its own kind, and the robot is
  -- then as it was. Otherwise it goes to the end of that list, and nothing else changes.
  pub add_point_lem :
      (k : Kind) (name : String) (x y theta : F) (r : Robot F)
      → add_point k name x y theta r ≡ (
          if name =? ""
          then (r, some (empty_name (check_name k)))
          else if has_name name (points k r)
          then (r, some (duplicate_name (check_name k) name))
          else (with_points k (points k r ++ new_point name x y theta ∷ []) r, none))
  unfolding add_waypoint add_service_point add_patrol_point add_path_point validate_and_create
      existing
  add_point_lem waypoint name x y theta r = ground arith
  add_point_lem service_point name x y theta r = ground arith
  add_point_lem patrol_point name x y theta r = ground arith
  add_point_lem path_point name x y theta r = ground arith
