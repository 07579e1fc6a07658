-- ===== src/Config/Joins.antt =====
-- A path below a directory, however the directory is written.
use Prim.Native.Char.{code}
use mathlib.Core.List.{append-nil}
use text.Mathlib.TextLemmas.{cons-append, nil-append}
use rom_go_app.Prelude.{
  ◌≡◌, ◌≢◌, refl, ap, ◌∙◌, String, Bool, List, [], ◌∷◌, ◌++◌, ◌==◌, ◌=?◌, ◌+++◌, arith, Bool-cases,
  inl, inr, eq_iff,
}
use rom_go_app.Config.Paths.{
  in_front, split, rooted, place, clean_onto, reverse_onto, elements, path, join,
}

in_front-cons :
    (s : String) (es : List String) → (f : String) × (fs : List String) × (in_front s es ≡ f ∷ fs)
in_front-cons s [] = (s, [], refl)
in_front-cons s (e ∷ es) = (s +++ e, es, refl)

split-cons : (s : String) → (e : String) × (es : List String) × (split s ≡ e ∷ es)
split-cons String.[] = ("", [], refl)
split-cons (String.◌∷◌ c s) = elim (Bool-cases (code c == 47)) [
  | inl slash ↦ rw slash ("", split s, refl)
  | inr other ↦ rw other (in_front-cons (String.◌∷◌ c String.[]) (split s))
]

in_front-append :
    (s e : String) (es fs gs : List String)
    → gs ≡ e ∷ es
    → in_front s (gs ++ fs) ≡ in_front s gs ++ fs
in_front-append s e es fs [] same = absurd (ground arith)
in_front-append s e es fs (g ∷ gs) same = refl

split-append : (a b : String) → split (a +++ ("/" +++ b)) ≡ split a ++ split b
split-append String.[] b = rw (nil-append, cons-append, nil-append) refl
split-append (String.◌∷◌ c s) b =
    let rest = split-append s b in
    let (e, es, same) = split-cons s in
    elim (Bool-cases (code c == 47)) [
      | inl slash ↦ rw (cons-append, slash) (ap (λ l. "" ∷ l) rest)
      | inr other ↦
          rw (cons-append, other)
            (ap (in_front (String.◌∷◌ c String.[])) rest
              ∙ in_front-append (String.◌∷◌ c String.[]) e es (split b) (split s) same)
    ]

clean_onto-append :
    (root : Bool) (es : List String) (out fs : List String)
    → clean_onto root out (es ++ fs) ≡ clean_onto root (clean_onto root out es) fs
clean_onto-append root [] out fs = refl
clean_onto-append root (e ∷ es) out fs = clean_onto-append root es (place root e out) fs

reverse_onto-append :
    (es out fs : List String) → reverse_onto (out ++ fs) es ≡ reverse_onto out es ++ fs
reverse_onto-append [] out fs = refl
reverse_onto-append (e ∷ es) out fs = reverse_onto-append es (e ∷ out) fs

rooted-append : (a b : String) → a ≢ "" → rooted (a +++ b) ≡ rooted a
rooted-append String.[] b n = absurd (n refl)
rooted-append (String.◌∷◌ c s) b n = rw cons-append refl

reverse_twice :
    (bs acc out : List String)
    → reverse_onto acc (reverse_onto out bs) ≡ reverse_onto (bs ++ acc) out
reverse_twice [] acc out = refl
reverse_twice (b ∷ bs) acc out = reverse_twice bs acc (b ∷ out)

-- Nothing in `b` is empty, "." or "..": its elements are `bs`.
abbrev pub IsPlain : String → List String → Type 0
IsPlain b bs =
    (root : Bool) (out : List String) → clean_onto root out (split b) ≡ reverse_onto out bs

pub join-elements :
    (a b : String) (bs : List String)
    → a ≢ ""
    → IsPlain b bs
    → join a b ≡ path (rooted a) (elements a ++ bs)
join-elements a b bs given plain =
    let below : reverse_onto [] (clean_onto (rooted a) [] (split a ++ split b)) ≡ elements a ++ bs =
      ap (reverse_onto [])
        (clean_onto-append (rooted a) (split a) [] (split b) ∙ plain (rooted a) _)
      ∙ reverse_twice bs [] (clean_onto (rooted a) [] (split a))
      ∙ ap (λ l. reverse_onto l (clean_onto (rooted a) [] (split a))) (append-nil bs)
      ∙ reverse_onto-append (clean_onto (rooted a) [] (split a)) [] bs in
    elim (Bool-cases (a =? "")) [
      | inl empty ↦ absurd (given ((eq_iff a "").0 empty))
      | inr full ↦
          rw (full, rooted-append a ("/" +++ b) given, split-append a b)
            (ap (path (rooted a)) below)
    ]
