-- ===== src/Config/Paths.antt =====
-- Paths as Go's `filepath.Join` and `filepath.Clean` take them, on a system whose separator is "/".
use Prim.Native.Char.{code}
use rom_go_app.Prelude.{
  String, Bool, true, false, ◌||◌, List, [], ◌∷◌, ◌==◌, ◌=?◌, ◌+++◌, if◌then◌else◌,
}

-- The text goes in front of the first element.
abbrev pub in_front : String → List String → List String
in_front s [] = s ∷ []
in_front s (e ∷ es) = (s +++ e) ∷ es

-- The elements between the separators; 47 is '/'.
abbrev pub split : String → List String
split String.[] = "" ∷ []
split (String.◌∷◌ c s) =
    let rest = split s in if code c == 47 then "" ∷ rest else in_front (String.◌∷◌ c String.[]) rest

abbrev pub rooted : String → Bool
rooted String.[] = false
rooted (String.◌∷◌ c s) = code c == 47

-- ".." takes the last element away; where there is none, it is dropped below the root, and stays
-- elsewhere. The elements stand in reverse.
abbrev up : Bool → List String → List String
up root [] = if root then [] else ".." ∷ []
up root (d ∷ out) = if d =? ".." then ".." ∷ d ∷ out else out

abbrev pub place : Bool → String → List String → List String
place root e out =
    if (e =? "") || (e =? ".") then out else if e =? ".." then up root out else e ∷ out

abbrev pub clean_onto : Bool → List String → List String → List String
clean_onto root out [] = out
clean_onto root out (e ∷ es) = clean_onto root (place root e out) es

abbrev pub reverse_onto : List String → List String → List String
reverse_onto out [] = out
reverse_onto out (e ∷ es) = reverse_onto (e ∷ out) es

-- The elements of a path that is clean.
abbrev pub elements : String → List String
elements s = reverse_onto [] (clean_onto (rooted s) [] (split s))

abbrev pub with_slashes : List String → String
with_slashes [] = ""
with_slashes (e ∷ []) = e
with_slashes (e ∷ d ∷ es) = e +++ ("/" +++ with_slashes (d ∷ es))

abbrev pub path : Bool → List String → String
path true es = "/" +++ with_slashes es
path false [] = "."
path false (e ∷ es) = with_slashes (e ∷ es)

-- `filepath.Clean`: the empty path is ".".
abbrev pub clean : String → String
clean s = path (rooted s) (elements s)

-- `filepath.Join` of two.
abbrev pub join : String → String → String
join a b = if a =? "" then (if b =? "" then "" else clean b) else clean (a +++ ("/" +++ b))
