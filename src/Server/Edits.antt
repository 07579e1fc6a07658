-- ===== src/Server/Edits.antt =====
-- What the handlers' changes of one robot keep.
use rom_go_app.Prelude.{
  ℕ, refl, String, Bool, true, Option, none, some, List, Float64, arith, Option-cases, inl, inr,
}
use rom_go_app.Rosbridge.Codec.{Codec}
use rom_go_app.Rosbridge.Types.{HandshakeResponse}
use rom_go_app.Rosbridge.Client.{
  Client, Network, Dialer, Error, Result, ok, err, connect, is_connected,
}
use rom_go_app.Rosbridge.Client.Replies.{handshake, request_which_maps_names}
use rom_go_app.Robot.{Robot, set_radius, set_map_list}
use rom_go_app.Api.{Settings, settle, shake_hands, learn_radius, apply_settings}
use rom_go_app.Api.Requests.{settle-KeepsIdentity, apply_settings-KeepsIdentity}
use rom_go_app.Api.Maps.{is_empty, fetch_names, store_names, look_for_maps, refresh_maps}
use rom_go_app.Rosbridge.Client.Lifecycle.Moves.{Moves, Moving, Moves-trans}
use rom_go_app.Server.Kept.{Listed, Follows, stays_put, Kept}
use rom_go_app.Server.Robots.{if_Kept, unchanged-Kept, told}
use rom_go_app.Prelude.{◌≡◌, sym, subst, if_holds}
use rom_go_app.Rosbridge.Client.Lifecycle.Calls.{
  handshake-Moves, connect-Moves, request_which_maps_names-Moves, request_settings_save-Moves,
}
use rom_go_app.Manager.Updates.{KeepsIdentity}
use rom_go_app.Robot.{get_map_list}

module _ {F : Type 0} (fl : Float64 F) (codec : Codec F) (net : Network F) (now : ℕ)
    (meanwhile : Client F → Client F) where
  learn_radius-Listed :
      (answer : Result (HandshakeResponse F)) (r : Robot F)
      → Listed r
      → Listed (learn_radius fl codec net now meanwhile answer r)
  unfolding set_radius
  learn_radius-Listed (err _) r v = v
  learn_radius-Listed (ok hs) r v = ground arith

  shake_hands-Listed :
      (c : Client F × Option Error) (r : Robot F)
      → Listed r
      → Listed (shake_hands fl codec net now meanwhile c r)
  shake_hands-Listed (c, some _) r v = v
  shake_hands-Listed (c, none) r v = learn_radius-Listed (handshake codec net now meanwhile c).1 _ v

  learn_radius-client :
      (answer : Result (HandshakeResponse F)) (r : Robot F)
      → (learn_radius fl codec net now meanwhile answer r).client ≡ r.client
  unfolding set_radius
  learn_radius-client (err _) r = refl
  learn_radius-client (ok hs) r = ground arith

  shake_hands-Follows :
      (b : Client F) (c : Client F × Option Error) (r : Robot F)
      → Moving fl meanwhile
      → Moves fl b c.0
      → Follows fl (some b) (shake_hands fl codec net now meanwhile c r).client
  shake_hands-Follows b (c, some _) r w m = m
  shake_hands-Follows b (c, none) r w m =
      subst (Follows fl (some b))
        (sym (learn_radius-client (handshake codec net now meanwhile c).1 _))
        (Moves-trans fl m (handshake-Moves fl codec net now meanwhile w c))

  settle-Follows :
      (dial : Dialer) (c : Option (Client F)) (r : Robot F)
      → r.client ≡ c
      → Moving fl meanwhile
      → Follows fl c (settle fl codec net now meanwhile dial r).client
  unfolding settle
  settle-Follows dial none r e w = rw (e, settle) (subst (Follows fl none) (sym e) tt)
  settle-Follows dial (some c) r e w =
      rw (e, settle)
        (shake_hands-Follows c (connect dial c) r w
          (connect-Moves fl codec net now meanwhile dial c))

  pub settle-Kept : (dial : Dialer) → Kept fl meanwhile (settle fl codec net now meanwhile dial)
  unfolding settle
  settle-Kept dial = (
    settle-KeepsIdentity fl codec net now meanwhile dial,
    λ r v. elim (Option-cases r.client) [
      | inl e ↦ rw (e, settle) v
      | inr (c, e) ↦ rw (e, settle) (shake_hands-Listed (connect dial c) r v)
    ],
    λ w r. settle-Follows dial r.client r refl w,
  )

  pub apply_settings-Kept :
      (to_text : F → F → F → String) (s : Settings F)
      → Kept fl meanwhile (apply_settings fl codec net now meanwhile to_text s)
  unfolding apply_settings
  apply_settings-Kept to_text s = (
    apply_settings-KeepsIdentity fl codec net now meanwhile to_text s,
    λ r v. ground arith,
    λ w r.
        if_holds (λ (d : Robot F). Follows fl r.client d.client) r.connected
          (told fl meanwhile _ r.client
            (request_settings_save-Moves fl codec net now meanwhile _ w))
          (stays_put fl r.client),
  )

module _ {F : Type 0} (fl : Float64 F) (codec : Codec F) (net : Network F) (now : ℕ)
    (meanwhile : Client F → Client F) where
  store_names-KeepsIdentity :
      (usable : List String → Bool) (answer : Result (List String))
      → KeepsIdentity (store_names codec net now meanwhile usable answer)
  unfolding set_map_list
  store_names-KeepsIdentity usable (err _) r = (refl, refl, refl)
  store_names-KeepsIdentity usable (ok names) r = (ground arith, ground arith, ground arith)

  store_names-Listed :
      (usable : List String → Bool) (answer : Result (List String)) (r : Robot F)
      → Listed r
      → Listed (store_names codec net now meanwhile usable answer r)
  unfolding set_map_list
  store_names-Listed usable (err _) r v = v
  store_names-Listed usable (ok names) r v = ground arith

  store_names-client :
      (usable : List String → Bool) (answer : Result (List String)) (r : Robot F)
      → (store_names codec net now meanwhile usable answer r).client ≡ r.client
  unfolding set_map_list
  store_names-client usable (err _) r = refl
  store_names-client usable (ok names) r = ground arith

  fetch_names-KeepsIdentity :
      (usable : List String → Bool) (c : Option (Client F))
      → KeepsIdentity (fetch_names codec net now meanwhile usable c)
  fetch_names-KeepsIdentity usable none r = (refl, refl, refl)
  fetch_names-KeepsIdentity usable (some c) r =
      let (after, answer) = request_which_maps_names codec net now meanwhile c in
      let (i, p, n) = store_names-KeepsIdentity usable answer (record r { client = some after }) in
      (ground (arith, i), ground (arith, p), ground (arith, n))

  fetch_names-Listed :
      (usable : List String → Bool) (c : Option (Client F)) (r : Robot F)
      → Listed r
      → Listed (fetch_names codec net now meanwhile usable c r)
  fetch_names-Listed usable none r v = v
  fetch_names-Listed usable (some c) r v =
      let (after, answer) = request_which_maps_names codec net now meanwhile c in
      if_holds Listed (is_connected c)
        (store_names-Listed usable answer (record r { client = some after }) v) v

  fetch_names-Follows :
      (usable : List String → Bool) (c : Option (Client F)) (r : Robot F)
      → r.client ≡ c
      → Moving fl meanwhile
      → Follows fl c (fetch_names codec net now meanwhile usable c r).client
  fetch_names-Follows usable none r e w = subst (Follows fl none) (sym e) tt
  fetch_names-Follows usable (some c) r e w =
      let (after, answer) = request_which_maps_names codec net now meanwhile c in
      if_holds (λ (s : Robot F). Follows fl (some c) s.client) (is_connected c)
        (subst (Follows fl (some c))
          (sym (store_names-client usable answer (record r { client = some after })))
          (request_which_maps_names-Moves fl codec net now meanwhile w c))
        (subst (Follows fl (some c)) (sym e) (stays_put fl (some c)))

  -- A robot asks for the names of its own client's maps.
  own_names-Kept :
      (usable : List String → Bool)
      → Kept fl meanwhile (λ r. fetch_names codec net now meanwhile usable r.client r)
  own_names-Kept usable = (
    λ r. fetch_names-KeepsIdentity usable r.client r,
    λ r. fetch_names-Listed usable r.client r,
    λ w r. fetch_names-Follows usable r.client r refl w,
  )

  pub refresh_maps-Kept : Kept fl meanwhile (refresh_maps codec net now meanwhile)
  unfolding refresh_maps
  refresh_maps-Kept = own_names-Kept _

  pub look_for_maps-Kept : Kept fl meanwhile (look_for_maps codec net now meanwhile)
  unfolding look_for_maps
  look_for_maps-Kept =
      if_Kept fl meanwhile (λ r. is_empty (get_map_list r)) _ _ (own_names-Kept (λ _. true))
        (unchanged-Kept fl meanwhile)
