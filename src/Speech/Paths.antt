-- ===== src/Speech/Paths.antt =====
-- Paths and texts, as Go's `filepath.Ext`, `strings.TrimSuffix` and `strings.TrimSpace` take them.
use Prim.Native.Char.{Char, code}
use Prim.Native.String.{[], ◌∷◌, ◌++◌, count}
use text.Mathlib.TextLemmas.{
  append-nil, nil-append, cons-append, length-cons, append_cancel_left, length-append,
  head-eq_of_cons-eq,
}
use rom_go_app.Prelude.{
  ℕ, ◌≡◌, ◌≢◌, refl, sym, ap, ◌∙◌, ◌⊎◌, inl, inr, String, Bool, true, false, ◌&&◌, ◌||◌, not,
  if◌then◌else◌, ◌=?◌, ◌==◌, ==_iff, eq_refl, ltb, Bool-cases, eq_iff, arith,
}

abbrev pub has_char : ℕ → String → Bool
has_char k [] = false
has_char k (c ∷ s) = (code c == k) || has_char k s

-- The extension that was found further on, else the path from here if its dot counts.
abbrev pub found : String → Bool → String → String
found (c ∷ s) here path = c ∷ s
found [] true path = path
found [] false path = ""

-- `filepath.Ext`: from the last dot of the last element of the path; 46 is '.', and 47 '/'.
abbrev pub ext : String → String
ext [] = ""
ext (c ∷ s) = found (ext s) ((code c == 46) && not (has_char 47 s)) (c ∷ s)

-- `strings.TrimSuffix`.
abbrev pub trim_suffix : String → String → String
trim_suffix [] suffix = []
trim_suffix (c ∷ s) suffix =
    let rest = trim_suffix s suffix in if (c ∷ s) =? suffix then [] else c ∷ rest

-- The path of the audio that ffmpeg makes.
unfoldable pub wav_path : String → String
wav_path audio = trim_suffix audio (ext audio) ++ "_16k.wav"

-- `unicode.IsSpace`.
abbrev pub is_space : Char → Bool
is_space c =
    let k = code c in
    ((k == 32) || (not (ltb k 9) && not (ltb 13 k)))
    || ((k == 133) || (k == 160) || (k == 5760) || (not (ltb k 8192) && not (ltb 8202 k)))
    || ((k == 8232) || (k == 8233) || (k == 8239) || (k == 8287) || (k == 12288))

abbrev pub trim_left : String → String
trim_left [] = []
trim_left (c ∷ s) = let rest = trim_left s in if is_space c then rest else c ∷ s

abbrev pub trim_right : String → String
trim_right [] = []
trim_right (c ∷ s) = let rest = trim_right s in if is_space c && (rest =? "") then [] else c ∷ rest

-- `strings.TrimSpace`.
abbrev pub trim_space : String → String
trim_space s = trim_right (trim_left s)

longer : (c : Char) (p suffix : String) → c ∷ (p ++ suffix) ≢ suffix
longer c p suffix e = omega (arith, ap count e, length-append p suffix, length-cons c (p ++ suffix))

abbrev IsDotted : String → Type 0
IsDotted e = (e ≡ "") ⊎ ((c : Char) × (r : String) × (e ≡ c ∷ r) × (code c ≡ 46))

abbrev IsEnd : String → String → Type 0
IsEnd e path = (p : String) × (path ≡ p ++ e)

found-IsDotted :
    (rest : String) (c : Char) (b : Bool) (s : String)
    → IsDotted rest
    → IsDotted (found rest ((code c == 46) && b) (c ∷ s))
found-IsDotted (d ∷ r) c b s v = v
found-IsDotted [] c b s v = elim (Bool-cases ((code c == 46) && b)) [
  | inl here ↦ rw here (inr (c, s, refl, ground (arith, ==_iff (code c) 46)))
  | inr elsewhere ↦ rw elsewhere (inl refl)
]

-- An extension is empty or begins with a dot.
ext-IsDotted : (s : String) → IsDotted (ext s)
ext-IsDotted [] = inl refl
ext-IsDotted (c ∷ s) = found-IsDotted (ext s) c (not (has_char 47 s)) s (ext-IsDotted s)

found-IsEnd :
    (rest : String) (here : Bool) (c : Char) (s : String)
    → IsEnd rest s
    → IsEnd (found rest here (c ∷ s)) (c ∷ s)
found-IsEnd (d ∷ r) here c s (p, e) = (c ∷ p, ap (◌∷◌ c) e ∙ sym (cons-append c p (d ∷ r)))
found-IsEnd [] true c s v = ("", sym (nil-append (c ∷ s)))
found-IsEnd [] false c s v = (c ∷ s, sym (append-nil (c ∷ s)))

-- An extension is the end of its path.
ext-IsEnd : (s : String) → IsEnd (ext s) s
ext-IsEnd [] = ("", refl)
ext-IsEnd (c ∷ s) = found-IsEnd (ext s) ((code c == 46) && not (has_char 47 s)) c s (ext-IsEnd s)

trim_suffix_all : (s : String) → trim_suffix s s ≡ []
trim_suffix_all [] = refl
trim_suffix_all (c ∷ s) = ground (arith, eq_refl (c ∷ s))

trim_suffix-append : (p suffix : String) → trim_suffix (p ++ suffix) suffix ≡ p
trim_suffix-append [] suffix =
    ap (λ (x : String). trim_suffix x suffix) (nil-append suffix) ∙ trim_suffix_all suffix
trim_suffix-append (c ∷ p) suffix = elim (Bool-cases ((c ∷ (p ++ suffix)) =? suffix)) [
  | inl e ↦ absurd (longer c p suffix (ground (arith, eq_iff (c ∷ (p ++ suffix)) suffix)))
  | inr e ↦ rw (cons-append c p suffix, e) (ap (◌∷◌ c) (trim_suffix-append p suffix))
]

trim_suffix-ext : (s : String) → trim_suffix s (ext s) ++ ext s ≡ s
trim_suffix-ext s =
    let (p, e) = ext-IsEnd s in
    let cut : trim_suffix s (ext s) ≡ p =
      ap (λ (x : String). trim_suffix x (ext s)) e ∙ trim_suffix-append p (ext s) in
    ap (λ (x : String). x ++ ext s) cut ∙ sym e

-- ffmpeg, which overwrites its output, never writes over the audio that it reads.
pub wav_path-ne : (audio : String) → wav_path audio ≢ audio
unfolding wav_path
wav_path-ne audio e =
    let stem = trim_suffix audio (ext audio) in
    let same : "_16k.wav" ≡ ext audio =
      append_cancel_left stem "_16k.wav" (ext audio) (e ∙ sym (trim_suffix-ext audio)) in
    elim (ext-IsDotted audio) [
      | inl blank ↦ cc
      | inr (c, r, shown, dot) ↦
          let head : "_" ≡ c = head-eq_of_cons-eq {x = "_"} {xs = "16k.wav"} (same ∙ shown) in
          absurd (omega (arith, ap code head, dot))
    ]
