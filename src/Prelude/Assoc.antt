-- ===== src/Prelude/Assoc.antt =====
-- Go maps with string keys, as association lists in an order that no operation relies on.
use Prim.Native.String.{String}
use mathlib.Core.Path.{◌≡◌, refl}
use mathlib.Core.Logic.{◌⊎◌, ◌≢◌, inl, inr}
use mathlib.Core.List.{List, [], ◌∷◌}
use mathlib.Core.Option.{Option, none, some}
use native.Mathlib.Omega.{arith}
use text.Mathlib.TextEquality.{eq_iff}
use text.Mathlib.TextPositions.{eq_refl}
use rom_go_app.Prelude.Tests.{◌=?◌, Bool-cases, if◌then◌else◌}

module _ {ℓ} {V : Type ℓ} where
  -- `m[k]`, `none` where the key is missing.
  abbrev pub get : String → List (String × V) → Option V
  get k [] = none
  get k ((j, v) ∷ m) = if j =? k then some v else get k m

  -- `m[k] = v`.
  abbrev pub put : String → V → List (String × V) → List (String × V)
  put k v [] = (k, v) ∷ []
  put k v ((j, w) ∷ m) = if j =? k then (k, v) ∷ m else (j, w) ∷ put k v m

  -- `delete(m, k)`.
  abbrev pub delete : String → List (String × V) → List (String × V)
  delete k [] = []
  delete k ((j, w) ∷ m) = if j =? k then delete k m else (j, w) ∷ delete k m

  pub get-put :
      (k j : String) (v : V) (m : List (String × V))
      → get j (put k v m) ≡ (if k =? j then some v else get j m)
  get-put k j v [] = refl
  get-put k j v ((i, w) ∷ m) = ground (arith, eq_iff k j, eq_iff i k, eq_iff i j, get-put k j v m)

  pub get-delete :
      (k j : String) (m : List (String × V))
      → get j (delete k m) ≡ (if k =? j then none else get j m)
  get-delete k j [] = ground arith
  get-delete k j ((i, w) ∷ m) = ground (arith, eq_iff k j, eq_iff i k, eq_iff i j, get-delete k j m)

  -- To put in what is there changes nothing.
  pub put_same : (k : String) (v : V) (m : List (String × V)) → get k m ≡ some v → put k v m ≡ m
  put_same k v [] h = cc
  put_same k v ((j, w) ∷ m) h = ground (arith, eq_iff j k, put_same k v m)

  pub get-put-some :
      (j k : String) (v : V) (m : List (String × V)) {r : V}
      → get k (put j v m) ≡ some r
      → ((j ≡ k) × (v ≡ r)) ⊎ ((j ≢ k) × (get k m ≡ some r))
  get-put-some j k v m h = elim (Bool-cases (j =? k)) [
    | inl e ↦ inl (ground (arith, eq_iff j k), ground (arith, get-put j k v m))
    | inr e ↦ inr (ground (arith, eq_iff j k), ground (arith, get-put j k v m))
  ]

  pub get-put_self : (k : String) (v : V) (m : List (String × V)) → get k (put k v m) ≡ some v
  get-put_self k v m = ground (arith, get-put k k v m, eq_refl k)

  pub get-put_ne :
      (j k : String) (v : V) (m : List (String × V)) → j ≢ k → get k (put j v m) ≡ get k m
  get-put_ne j k v m h = ground (arith, get-put j k v m, eq_iff j k)

  pub get-delete-some :
      (j k : String) (m : List (String × V)) {r : V}
      → get k (delete j m) ≡ some r
      → (j ≢ k) × (get k m ≡ some r)
  get-delete-some j k m h =
      (ground (arith, eq_iff j k, get-delete j k m), ground (arith, get-delete j k m))

  pub get-delete_ne : (j k : String) (m : List (String × V)) → j ≢ k → get k (delete j m) ≡ get k m
  get-delete_ne j k m h = ground (arith, get-delete j k m, eq_iff j k)
