-- ===== src/Navigation/Remote/Readings.antt =====
-- How a robot reads the request that sends it points: by the names of the fields, in any order.
use rom_go_app.Prelude.{String, Option, none, some, List, [], ◌∷◌, ◌≡◌, refl, if◌then◌else◌, ◌=?◌}
use rom_go_app.Rosbridge.Types.{NavigationPoint}
use rom_go_app.Rosbridge.Protocol.{
  Json, text, number, array, object, Items, nil, cons, Fields, end, field, waypoint_json,
  waypoint_to_json,
}

-- For the `do` blocks.
infixl 5 ◌>>=◌
abbrev ◌>>=◌ {ℓ κ} : {A : Type ℓ} {B : Type κ} → Option A → (A → Option B) → Option B
none >>= f = none
some a >>= f = f a

module _ {F : Type 0} where
  abbrev pub value_at : String → Fields F → Option (Json F)
  value_at key end = none
  value_at key (field name v rest) = if name =? key then some v else value_at key rest

  abbrev pub member : String → Json F → Option (Json F)
  member key (object fields) = value_at key fields
  member key (text _) = none
  member key (number _) = none
  member key (array _) = none

  abbrev pub as_text : Json F → Option String
  as_text (text s) = some s
  as_text (number _) = none
  as_text (array _) = none
  as_text (object _) = none

  abbrev pub as_number : Json F → Option F
  as_number (number x) = some x
  as_number (text _) = none
  as_number (array _) = none
  as_number (object _) = none

  abbrev pub read_point : Json F → Option (NavigationPoint F)
  read_point v = do
    name ← member "name" v >>= as_text
    image_x_px ← member "image_x_px" v >>= as_number
    image_y_px ← member "image_y_px" v >>= as_number
    image_theta_deg ← member "image_theta_deg" v >>= as_number
    world_x_m ← member "world_x_m" v >>= as_number
    world_y_m ← member "world_y_m" v >>= as_number
    world_theta_rad ← member "world_theta_rad" v >>= as_number
    some (record {
      name = name;
      image_x_px = image_x_px;
      image_y_px = image_y_px;
      image_theta_deg = image_theta_deg;
      world_x_m = world_x_m;
      world_y_m = world_y_m;
      world_theta_rad = world_theta_rad;
    })

  abbrev pub read_items : Items F → Option (List (NavigationPoint F))
  read_items nil = some []
  read_items (cons v items) = do p ← read_point v; ps ← read_items items; some (p ∷ ps)

  abbrev pub as_points : Json F → Option (List (NavigationPoint F))
  as_points (array items) = read_items items
  as_points (text _) = none
  as_points (number _) = none
  as_points (object _) = none

  -- The points of a request, which stand under `list` among its arguments.
  abbrev pub read_points : String → Json F → Option (List (NavigationPoint F))
  read_points list request = do
    args ← member "args" request
    points ← member list args
    as_points points

  pub read_items-waypoint_to_json :
      (pts : List (NavigationPoint F)) → read_items (waypoint_to_json pts) ≡ some pts
  unfolding waypoint_to_json waypoint_json
  read_items-waypoint_to_json [] = refl
  read_items-waypoint_to_json (p ∷ pts) = rw (read_items-waypoint_to_json pts) refl
