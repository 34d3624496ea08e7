-- ===== src/Tests/Characters.antt =====
-- Texts as numbers and back, for the libraries that the tests stand on.
use Prim.Native.Char.{Char, char, code, IsScalar, IsLt}
use Prim.Native.Nat.{Ordering, compare}
use jet_core_service_bus.Prelude.{
  ℕ, zero, suc, String, ◌≡◌, refl, Option, none, some, List, [], ◌∷◌, ap,
}

abbrev BothLess : Ordering → Ordering → Type 0
BothLess Ordering.lt o = IsLt o
BothLess Ordering.eq _ = ⊥
BothLess Ordering.gt _ = ⊥

abbrev LessOrBoth : Ordering → Ordering → Ordering → Type 0
LessOrBoth Ordering.lt _ _ = Unit
LessOrBoth Ordering.eq o p = BothLess o p
LessOrBoth Ordering.gt o p = BothLess o p

abbrev less? : (o : Ordering) → Option (IsLt o)
less? Ordering.lt = some tt
less? Ordering.eq = none
less? Ordering.gt = none

abbrev both? : (o p : Ordering) → Option (BothLess o p)
both? Ordering.lt o = less? o
both? Ordering.eq _ = none
both? Ordering.gt _ = none

abbrev scalar? : (o p q : Ordering) → Option (LessOrBoth o p q)
scalar? Ordering.lt _ _ = some tt
scalar? Ordering.eq o p = both? o p
scalar? Ordering.gt o p = both? o p

abbrev with_proof : (n : ℕ) → Option (IsScalar n) → Option Char
with_proof n none = none
with_proof n (some h) = some (char n h)

to_char : ℕ → Option Char
to_char n = with_proof n (scalar? (compare n 55296) (compare 57343 n) (compare n 1114112))

less?-some : (o : Ordering) (h : IsLt o) → less? o ≡ some h
less?-some Ordering.lt h = refl
less?-some Ordering.eq h = absurd h
less?-some Ordering.gt h = absurd h

both?-some : (o p : Ordering) (h : BothLess o p) → both? o p ≡ some h
both?-some Ordering.lt p h = less?-some p h
both?-some Ordering.eq p h = absurd h
both?-some Ordering.gt p h = absurd h

scalar?-some : (o p q : Ordering) (h : LessOrBoth o p q) → scalar? o p q ≡ some h
scalar?-some Ordering.lt p q h = refl
scalar?-some Ordering.eq p q h = both?-some p q h
scalar?-some Ordering.gt p q h = both?-some p q h

to_char-code : (c : Char) → to_char (code c) ≡ some c
unfolding to_char
to_char-code (char n h) =
    ap (with_proof n) (scalar?-some (compare n 55296) (compare 57343 n) (compare n 1114112) h)

-- A text before further numbers: each character one higher, then 0
unfoldable pub encode_text : String → List ℕ → List ℕ
encode_text String.[] l = 0 ∷ l
encode_text (String.◌∷◌ c s) l = suc (code c) ∷ encode_text s l

abbrev cons_char : Option Char → Option (String × List ℕ) → Option (String × List ℕ)
cons_char (some c) (some (s, l)) = some (String.◌∷◌ c s, l)
cons_char _ _ = none

unfoldable pub decode_text : List ℕ → Option (String × List ℕ)
unfolding to_char
decode_text [] = none
decode_text (zero ∷ l) = some ("", l)
decode_text (suc n ∷ l) = cons_char (to_char n) (decode_text l)

pub decode-encode_text : (s : String) (l : List ℕ) → decode_text (encode_text s l) ≡ some (s, l)
unfolding encode_text decode_text
decode-encode_text String.[] l = refl
decode-encode_text (String.◌∷◌ c s) l = rw (to_char-code c, decode-encode_text s l) refl
