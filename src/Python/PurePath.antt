-- ===== src/Python/PurePath.antt =====
-- `pathlib`: an absolute path is the list of its components, and `/` is the empty list.
use Prim.Native.Char.{Char, code}
use jet_core_service_bus.Prelude.{
  ◌<>◌, ℕ, String, ◌≡◌, refl, Bool, true, false, ◌&&◌, ◌||◌, List, [], ◌∷◌, ◌++◌, map, arith, ◌==◌,
  if◌then◌else◌, str_eq, eq_iff, sym, ◌∙◌,
}
use jet_core_service_bus.Python.Exception.{Exception, Result, ok, err}
use jet_core_service_bus.Python.Equality.{contains, contains-append, texts_eq_inst, ◌=?◌}

abbrev pub PosixPath : Type 0
PosixPath = List String

abbrev onto_first : Char → List String → List String
onto_first c [] = String.◌∷◌ c "" ∷ []
onto_first c (w ∷ ws) = String.◌∷◌ c w ∷ ws

-- `s.split(sep)`, at a separator of one character
unfoldable pub split : ℕ → String → List String
split sep String.[] = "" ∷ []
split sep (String.◌∷◌ c s) =
    let ws = split sep s in if code c == sep then "" ∷ ws else onto_first c ws

abbrev drop_trivial : List String → List String
drop_trivial [] = []
drop_trivial (w ∷ ws) =
    let rest = drop_trivial ws in if str_eq w "" || str_eq w "." then rest else w ∷ rest

-- `PurePosixPath(s).parts`, without the root: empty parts and `.` go, `..` stays.
unfoldable pub parts : String → List String
unfolding split
parts s = drop_trivial (split b'/' s)

-- `PurePosixPath(s).is_absolute()`
unfoldable pub is_absolute : String → Bool
is_absolute String.[] = false
is_absolute (String.◌∷◌ c s) = code c == b'/'

-- `p.parent`: that of the root is the root.
unfoldable pub parent : PosixPath → PosixPath
parent [] = []
parent (w ∷ []) = []
parent (w ∷ v ∷ ws) = w ∷ parent (v ∷ ws)

-- `p.relative_to(root)`
unfoldable pub relative_to : PosixPath → PosixPath → Result PosixPath
relative_to p [] = ok p
relative_to [] (v ∷ vs) = err Exception.value_error
relative_to (w ∷ ws) (v ∷ vs) =
    let rest = relative_to ws vs in if str_eq w v then rest else err Exception.value_error

-- `str(p)` of a relative path
unfoldable pub path_text : PosixPath → String
path_text [] = "."
path_text (w ∷ []) = w
path_text (w ∷ v ∷ ws) = w <> "/" <> path_text (v ∷ ws)

-- `p.parents`: from the directory that holds `p` up to the root
unfoldable pub parents : PosixPath → List PosixPath
parents [] = []
parents (w ∷ ws) = map (◌∷◌ w) (parents ws) ++ [] ∷ []

-- `p` is `root` or lies below it.
abbrev pub Within : PosixPath → PosixPath → Type 0
Within root p = (below : PosixPath) × (p ≡ root ++ below)

contains-map_cons :
    (w v : String) (vs : PosixPath) (ps : List PosixPath)
    → contains (map (◌∷◌ w) ps) (v ∷ vs) ≡ (str_eq v w && contains ps vs)
contains-map_cons w v vs [] = ground arith
contains-map_cons w v vs (p ∷ ps) = ground (arith, contains-map_cons w v vs ps)

-- The test that `p` lies within `root`.
abbrev pub is_within : PosixPath → PosixPath → Bool
is_within root p = p =? root || contains (parents p) root

parents-cons :
    (w : String) (ws : PosixPath) → parents (w ∷ ws) ≡ map (◌∷◌ w) (parents ws) ++ [] ∷ []
unfolding parents
parents-cons w ws = refl

same_text : (v w : String) → str_eq w v ≡ str_eq v w
same_text v w = ground (arith, eq_iff v w, eq_iff w v)

merge : (a b c : Bool) → (a && b || (a && c || false)) ≡ (a && (b || c))
merge a b c = ground arith

is_within-cons :
    (v w : String) (vs ws : PosixPath)
    → is_within (v ∷ vs) (w ∷ ws) ≡ (str_eq v w && is_within vs ws)
is_within-cons v w vs ws =
    rw (parents-cons, contains-append, contains-map_cons w v vs (parents ws), same_text v w)
      (merge (str_eq v w) (ws =? vs) (contains (parents ws) vs))

is_within-nil : (p : PosixPath) → is_within [] p ≡ true
unfolding parents
is_within-nil [] = refl
is_within-nil (w ∷ ws) = rw contains-append (ground arith)

pub is_within-Within : (root p : PosixPath) → is_within root p ≡ true → Within root p
is_within-Within [] p h = (p, refl)
is_within-Within (v ∷ vs) [] h = unfold parents in cc
is_within-Within (v ∷ vs) (w ∷ ws) h =
    let t : (str_eq v w && is_within vs ws) ≡ true = sym (is_within-cons v w vs ws) ∙ h in
    let (below, e) = is_within-Within vs ws (ground arith) in (below, ground (arith, eq_iff v w))

pub test_of_within : (root below : PosixPath) → is_within root (root ++ below) ≡ true
test_of_within [] below = is_within-nil below
test_of_within (v ∷ vs) below =
    rw (is_within-cons, test_of_within vs below) (ground (arith, eq_iff v v))
