-- ===== src/Rosbridge/Client/Parsers/Transforms.antt =====
-- What `parseTF` makes of a message with any number of transforms.
use rom_go_app.Prelude.{
  ◌≡◌, refl, ap, Bool, true, false, ◌&&◌, none, some, Option, List, [], ◌∷◌, Float64, Bool-cases,
  inl, inr, if◌then◌else◌, ◌=?◌,
}
use rom_go_app.Rosbridge.Types.{Transform, TransformStamped, zero_stamped, zero_tf}
use rom_go_app.Rosbridge.Codec.{Raw, Codec}
use rom_go_app.Rosbridge.Client.{Client}
use rom_go_app.Rosbridge.Client.Parsers.{
  Callback, on_tf, TfLoop, with_map_odom, with_bfp, tf_body, tf_loop, parse_tf,
}

module _ {F : Type 0} where
  abbrev pub is_map_odom : TransformStamped F → Bool
  is_map_odom t = (t.header.frame_id =? "map") && (t.child_frame_id =? "odom")

  abbrev pub is_base : TransformStamped F → Bool
  is_base t = (t.header.frame_id =? "odom") && (t.child_frame_id =? "base_footprint")

  -- The last transform from `map` to `odom`, `before` if there is none.
  pub last_map_odom : Transform F → List (TransformStamped F) → Transform F
  last_map_odom before [] = before
  last_map_odom before (t ∷ ts) = last_map_odom (if is_map_odom t then t.transform else before) ts

  -- The last transform from `odom` to `base_footprint`.
  pub last_base : Option (Transform F) → List (TransformStamped F) → Option (Transform F)
  last_base before [] = before
  last_base before (t ∷ ts) =
      last_base (if is_map_odom t then before else if is_base t then some t.transform else before)
        ts

module _ {F : Type 0} (fl : Float64 F) where
  -- What the loop has emitted so far, as the description has it.
  abbrev Agrees : Transform F → Option (Transform F) → TfLoop F → Type 0
  Agrees m none s =
      (s.global.transform ≡ m)
      × (s.emit ≡ false)
      × (with_map_odom m s.tf ≡ with_map_odom m (zero_tf fl))
  Agrees m (some b) s =
      (s.global.transform ≡ m)
      × (s.emit ≡ true)
      × (s.tf ≡ with_bfp fl b (with_map_odom m (zero_tf fl)))

  tf_body-Agrees :
      (m : Transform F) (b : Option (Transform F)) (t : TransformStamped F) (s : TfLoop F)
      → Agrees m b s
      → Agrees
          (if is_map_odom t then t.transform else m)
          (if is_map_odom t then b else if is_base t then some t.transform else b)
          (tf_body fl t s)
  unfolding tf_body
  tf_body-Agrees m b t s h = elim (Bool-cases (is_map_odom t)) [
    | inl here ↦ rw here (moved b h)
    | inr away ↦ rw away (elim (Bool-cases (is_base t)) [
      | inl here ↦ rw here (based b h)
      | inr neither ↦ rw neither h
    ])
  ]
    where
      moved :
          (b : Option (Transform F))
          → Agrees m b s
          → Agrees t.transform b (record s {
            global = record (zero_stamped fl) { transform = t.transform };
            tf = with_map_odom t.transform s.tf;
          })
      moved none k = (refl, k.1, ap (with_map_odom t.transform) k.2)
      moved (some x) k = (refl, k.1, ap (with_map_odom t.transform) k.2)

      based :
          (b : Option (Transform F))
          → Agrees m b s
          → Agrees m (some t.transform) (record s {
            tf = with_bfp fl t.transform (with_map_odom s.global.transform s.tf);
            emit = true;
          })
      based none k = (k.0, refl, rw k.0 (ap (with_bfp fl t.transform) k.2))
      based (some x) k =
          (k.0, refl, rw k.0 (ap (λ d. with_bfp fl t.transform (with_map_odom m d)) k.2))

  tf_loop-Agrees :
      (ts : List (TransformStamped F)) (m : Transform F) (b : Option (Transform F)) (s : TfLoop F)
      → Agrees m b s
      → Agrees (last_map_odom m ts) (last_base b ts) (tf_loop fl ts s)
  unfolding tf_loop last_map_odom last_base
  tf_loop-Agrees [] m b s h = h
  tf_loop-Agrees (t ∷ ts) m b s h =
      tf_loop-Agrees ts _ _ (tf_body fl t s) (tf_body-Agrees m b t s h)

  -- The callback that a description of the message calls for: none without an odom→base transform,
  -- and otherwise the last one, with the last map→odom transform known.
  abbrev pub expected_tf : Transform F → Option (Transform F) → Option (Callback F)
  expected_tf m none = none
  expected_tf m (some b) = some (on_tf (with_bfp fl b (with_map_odom m (zero_tf fl))))

  Agrees-expected_tf :
      (m : Transform F) (b : Option (Transform F)) (s : TfLoop F)
      → Agrees m b s
      → (s.global.transform ≡ m) × ((if s.emit then some (on_tf s.tf) else none) ≡ expected_tf m b)
  Agrees-expected_tf m none s h = (h.0, rw h.1 refl)
  Agrees-expected_tf m (some b) s h = (h.0, rw h.1 (ap (λ d. some (on_tf d)) h.2))

  -- A decoded message with any number of transforms, in any order, for a client with its callbacks
  -- set: the client then holds the last map→odom transform, of this message or of an earlier one,
  -- and `OnTF` is called once if the message has an odom→base_footprint transform, with the last
  -- of these and that map→odom transform, also where the latter stands behind the former in the
  -- message; it is not called otherwise.
  pub parse_tf_lem :
      (codec : Codec F) (msg : Raw) (c : Client F) (ts : List (TransformStamped F))
      → c.wired ≡ true
      → codec.transforms msg ≡ some ts
      → let m = last_map_odom c.global_map_odom.transform ts in
        ((parse_tf fl codec msg c).0.global_map_odom.transform ≡ m)
        × ((parse_tf fl codec msg c).1 ≡ expected_tf m (last_base none ts))
  unfolding parse_tf
  parse_tf_lem codec msg c ts w d =
      rw (w, d, parse_tf) (Agrees-expected_tf _ _ _ (tf_loop-Agrees ts _ none _ (refl, refl, refl)))
