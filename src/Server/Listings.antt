-- ===== src/Server/Listings.antt =====
-- What a listing shows after a change by another request.
use rom_go_app.Prelude.{
  if_holds, ◌≡◌, refl, ◌∙◌, ap, ◌⊎◌, inl, inr, String, true, false, ◌||◌, Option, none, some, List,
  [], ◌∷◌, ◌++◌, Float64, ◌=?◌, get, get-put_self, Bool-cases, arith,
}
use rom_go_app.Rosbridge.Types.{NavigationPoint}
use rom_go_app.Rosbridge.Codec.{Raw}
use rom_go_app.Rosbridge.Client.{Client, Result}
use rom_go_app.Robot.{Robot, get_snapshot, get_map_list}
use rom_go_app.Navigation.{has_name}
use rom_go_app.Navigation.Names.{
  Kind, waypoint, service_point, patrol_point, path_point, points, with_points, new_point,
  add_point_lem,
}
use rom_go_app.Manager.{Manager, get_robot, get_current_robot, update_robot}
use rom_go_app.Api.{Status, success, bad_request}
use rom_go_app.Api.Current.{on_current, get_current-get, update_robot_same}
use rom_go_app.Api.Points.{
  PointType, listed, point_type, one_list, PointForm, add_typed_point, add_navigation_point,
  list_points, list_navigation_points,
}
use rom_go_app.Api.Maps.{
  call_if_connected, connected_call, named_call, named_map_request, save_map_request, listed_maps,
  look_for_maps, list_maps,
}
use rom_go_app.Server.{
  map_names, maps_save, maps_list, Env, HttpRequest, status, point_lists, nav_add, nav_list, answer,
  point_form,
}

module _ {F : Type 0} where
  -- The current robot after its update.
  get_current_robot-update_robot :
      (f : Robot F → Robot F) (m : Manager F) (r : Robot F)
      → get_current_robot m ≡ some r
      → get_current_robot (update_robot m.current_id f m) ≡ some (f r)
  unfolding update_robot get_robot get_current_robot
  get_current_robot-update_robot f m r e =
      let found : get m.current_id m.robots ≡ some r = get_current-get m r e in
      rw (found, update_robot) (ground (arith, e, get-put_self m.current_id (f r) m.robots))

  on_current-some :
      (f : Robot F → Robot F × Status) (m : Manager F) (r : Robot F)
      → get_current_robot m ≡ some r
      → (get_current_robot (on_current f m).0 ≡ some (f r).0) × ((on_current f m).1 ≡ (f r).1)
  unfolding on_current
  on_current-some f m r e = (
    rw (e, on_current) (get_current_robot-update_robot (λ s. (f s).0) m r e),
    rw (e, on_current) refl,
  )

  on_current-same :
      (f : Robot F → Robot F × Status) (m : Manager F) (r : Robot F)
      → get_current_robot m ≡ some r
      → (f r).0 ≡ r
      → on_current f m ≡ (m, (f r).1)
  unfolding on_current
  on_current-same f m r e same =
      rw (e, on_current)
        (ap (λ (n : Manager F). (n, (f r).1))
          (update_robot_same m.current_id (λ s. (f s).0) m r (get_current-get m r e) same))

  points-snapshot :
      (fl : Float64 F) (k : Kind) (r : Robot F) → points k (get_snapshot fl r) ≡ points k r
  unfolding get_snapshot
  points-snapshot fl waypoint r = refl
  points-snapshot fl service_point r = refl
  points-snapshot fl patrol_point r = refl
  points-snapshot fl path_point r = refl

  points-with_points :
      (k : Kind) (l : List (NavigationPoint F)) (r : Robot F) → points k (with_points k l r) ≡ l
  points-with_points waypoint l r = refl
  points-with_points service_point l r = refl
  points-with_points patrol_point l r = refl
  points-with_points path_point l r = refl

  -- What a listing of one kind shows of the current robot.
  list_navigation_points-listed :
      (fl : Float64 F) (k : Kind) (type_name : String) (m : Manager F) (r : Robot F)
      → get_current_robot m ≡ some r
      → point_type type_name ≡ listed k
      → list_navigation_points fl type_name m ≡ one_list (points k r)
  unfolding list_navigation_points list_points
  list_navigation_points-listed fl k type_name m r e t =
      rw (e, list_navigation_points, t) (ap one_list (points-snapshot fl k r))

module _ {F : Type 0} (fl : Float64 F) where
  add_typed_point-listed :
      (k : Kind) (p : PointForm F) (r : Robot F)
      → let (s, st) = add_typed_point fl (listed k) p r in
        let refused = (p.name =? "") || has_name p.name (points k r) in
        ((refused ≡ true) × (st ≡ bad_request) × (points k s ≡ points k r))
        ⊎ ((refused ≡ false)
            × (st ≡ success)
            × (points k s ≡ points k r ++ new_point fl p.name p.x p.y p.theta ∷ []))
  unfolding add_typed_point
  add_typed_point-listed k p r =
      rw (add_point_lem fl k p.name p.x p.y p.theta r) (elim (Bool-cases (p.name =? "")) [
        | inl blank ↦ rw blank (inl (refl, refl, refl))
        | inr named ↦ elim (Bool-cases (has_name p.name (points k r))) [
          | inl taken ↦ rw (named, taken) (inl (refl, refl, refl))
          | inr free ↦ rw (named, free) (inr (refl, refl, points-with_points k _ r))
        ]
      ])

  -- A point of one of the four kinds is added to the current robot by one request, and that kind is
  -- listed by another. Where the name is empty or taken in the list of the kind, the addition is
  -- answered by 400 and the listing shows the old list; otherwise it succeeds, and the listing shows
  -- the old list with the new point at the end.
  pub add-list_points :
      (env : Env F) (add list : HttpRequest F) (m : Manager F) (r : Robot F) (k : Kind)
      → get_current_robot m ≡ some r
      → point_type (add.form "type") ≡ listed k
      → point_type (list.query "type") ≡ listed k
      → let (after, reply) = answer fl env nav_add add m in
        let shown = (answer fl env nav_list list after).1 in
        let p = point_form fl env add in
        let refused = (p.name =? "") || has_name p.name (points k r) in
        ((refused ≡ true)
          × (reply ≡ status bad_request)
          × (shown ≡ point_lists (one_list (points k r))))
        ⊎ ((refused ≡ false)
            × (reply ≡ status success)
            × (shown
                ≡ point_lists (one_list (points k r ++ new_point fl p.name p.x p.y p.theta ∷ []))))
  unfolding answer add_navigation_point
  add-list_points env add list m r k e t u =
      let p = point_form fl env add in
      let typed : point_type p.type_name ≡ listed k = t in
      let (now, st) = on_current-some (add_typed_point fl (point_type p.type_name) p) m r e in
      let kept = list_navigation_points-listed fl k (list.query "type") _ _ now u in
      let reply = st ∙ ap (λ (x : PointType). (add_typed_point fl x p r).1) typed in
      let shown =
        kept ∙ ap (λ (x : PointType). one_list (points k (add_typed_point fl x p r).0)) typed in
      elim (add_typed_point-listed k p r) [
        | inl (refused, bad, same) ↦
            inl (refused, ap status (reply ∙ bad), ap point_lists (shown ∙ ap one_list same))
        | inr (allowed, good, longer) ↦
            inr (allowed, ap status (reply ∙ good), ap point_lists (shown ∙ ap one_list longer))
      ]

module _ {F : Type 0} where
  -- There is a current robot, and these are its maps.
  abbrev HasMaps : List String → Manager F → Type 0
  HasMaps names m = (r : Robot F) × (get_current_robot m ≡ some r) × (get_map_list r ≡ names)

  abbrev Leaves : {A : Type 0} → List String → Manager F × A → Type 0
  Leaves names w = HasMaps names w.0

  call_if_connected-maps :
      (call : Client F → Client F × Result Raw) (c : Option (Client F)) (r : Robot F)
      → get_map_list (call_if_connected call c r).0 ≡ get_map_list r
  unfolding get_map_list
  call_if_connected-maps call none r = refl
  call_if_connected-maps call (some c) r = ground arith

  called-HasMaps :
      (call : Client F → Client F × Result Raw) (names : List String) (m : Manager F)
      → HasMaps names m
      → HasMaps names (on_current (connected_call call) m).0
  unfolding connected_call
  called-HasMaps call names m (r, e, same) = (
    (call_if_connected call r.client r).0,
    (on_current-some (connected_call call) m r e).0,
    call_if_connected-maps call r.client r ∙ same,
  )

  named_call-HasMaps :
      (call : String → Client F → Client F × Result Raw) (body : Option String)
      (names : List String) (m : Manager F)
      → HasMaps names m
      → HasMaps names (named_call call body m).0
  named_call-HasMaps call none names m v = v
  named_call-HasMaps call (some name) names m v =
      if_holds (Leaves names) (name =? "") v (called-HasMaps (call name) names m v)

  save_map_request-HasMaps :
      (env : Env F) (method : String) (body : Option String) (names : List String) (m : Manager F)
      → HasMaps names m
      → HasMaps names (save_map_request env.codec env.net env.now env.meanwhile method body m).0
  unfolding save_map_request named_map_request
  save_map_request-HasMaps env method body names m v =
      if_holds (Leaves names) (method =? "POST") (named_call-HasMaps _ body names m v) v

  look_for_maps-cached :
      (env : Env F) (r : Robot F) (first : String) (names : List String)
      → get_map_list r ≡ first ∷ names
      → look_for_maps env.codec env.net env.now env.meanwhile r ≡ r
  unfolding look_for_maps
  look_for_maps-cached env r first names same = rw (same, look_for_maps) refl

  list_maps-HasMaps :
      (env : Env F) (first : String) (names : List String) (m : Manager F)
      → HasMaps (first ∷ names) m
      → (list_maps env.codec env.net env.now env.meanwhile "GET" m ≡ (m, success))
        × (listed_maps (get_current_robot m) ≡ some (first ∷ names))
  unfolding list_maps
  list_maps-HasMaps env first names m (r, e, same) = (
    on_current-same (λ s. (look_for_maps env.codec env.net env.now env.meanwhile s, success)) m r e
        (look_for_maps-cached env r first names same),
    rw e (ap some same),
  )

module _ {F : Type 0} (fl : Float64 F) where
  -- Whatever a request to save a map does, a listing that follows it shows the maps that the current
  -- robot had before, if it had any, and asks the robot nothing.
  pub save-list_maps :
      (env : Env F) (save list : HttpRequest F) (m : Manager F) (r : Robot F) (first : String)
      (names : List String)
      → get_current_robot m ≡ some r
      → get_map_list r ≡ first ∷ names
      → list.method ≡ "GET"
      → let after = (answer fl env maps_save save m).0 in
        answer fl env maps_list list after ≡ (after, map_names (some (first ∷ names)))
  unfolding answer
  save-list_maps env save list m r first names e had get =
      let v =
        save_map_request-HasMaps env save.method save.map_name (first ∷ names) m (r, e, had) in
      let (listing, shown) = list_maps-HasMaps env first names _ v in
      rw (get, listing)
        (ap
          (λ (shown_maps : Option (List String)).
            ((answer fl env maps_save save m).0, map_names shown_maps))
          shown)
