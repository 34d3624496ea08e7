-- ===== src/Python/Base64.antt =====
-- The `base64` module. `b64decode` goes through the text as `binascii.a2b_base64` does: four
-- characters make three bytes, and the position in the four is part of the scan's state.
pub mod RoundTrip
pub mod Errors
use Prim.Native.Char.{Char, code, nul}
use Prim.Native.Nat.{ℕ, zero, suc, ◌+◌, ◌-◌, ◌*◌, ◌/◌, ◌%◌}
use jet_core_service_bus.Prelude.{
  String, Bool, true, false, ◌&&◌, Option, none, some, List, [], ◌∷◌, ◌==◌, leb, ltb, if◌then◌else◌,
}
use jet_core_service_bus.Python.Exception.{Exception, Result, ok, err}
use jet_core_service_bus.Python.Json.{Bytes}

nth : String → ℕ → Char
nth String.[] i = nul
nth (String.◌∷◌ c s) zero = c
nth (String.◌∷◌ c s) (suc i) = nth s i

abbrev alphabet : String
alphabet = "ABCDEFGHIJKLMNOPQRSTUVWXYZabcdefghijklmnopqrstuvwxyz0123456789+/"

symbol : ℕ → Char
unfolding nth
symbol i = nth alphabet i

-- The value of a character of the alphabet
digit : Char → Option ℕ
digit c =
    let n = code c in
    if leb b'A' n && leb n b'Z'
    then some (n - 65)
    else if leb b'a' n && leb n b'z'
    then some (n - 71)
    else if leb b'0' n && leb n b'9'
    then some (n + 4)
    else if n == b'+'
    then some 62
    else if n == b'/'
    then some 63
    else none

abbrev is_pad : Char → Bool
is_pad c = code c == b'='

-- `base64.b64encode(data).decode()`
unfoldable pub b64encode : Bytes → String
unfolding symbol
b64encode [] = ""
b64encode (a ∷ []) = String.◌∷◌ (symbol (a / 4)) (String.◌∷◌ (symbol (a % 4 * 16)) "==")
b64encode (a ∷ b ∷ []) =
    String.◌∷◌ (symbol (a / 4))
      (String.◌∷◌ (symbol (a % 4 * 16 + b / 16)) (String.◌∷◌ (symbol (b % 16 * 4)) "="))
b64encode (a ∷ b ∷ c ∷ rest) = String.◌∷◌ (symbol (a / 4)) (
    String.◌∷◌ (symbol (a % 4 * 16 + b / 16))
      (String.◌∷◌ (symbol (b % 16 * 4 + c / 64)) (String.◌∷◌ (symbol (c % 64)) (b64encode rest))))

-- Where the scan is: the position in the four characters, the bits left over, the padding seen.
pub record Quad : Type 0 where
  pub at : ℕ
  pub left : ℕ
  pub pads : ℕ
  pub padding_started : Bool

abbrev start : Quad
start = record { at = 0; left = 0; pads = 0; padding_started = false }

pub data Move : Type 0 where
  finish : Move
  fail : Move
  skip : Quad → Move
  emit : ℕ → Quad → Move

-- A digit at each of the four positions
advance : Quad → ℕ → ℕ → Move
advance q zero d = skip (record q { at = 1; left = d; pads = 0 })
advance q (suc zero) d = emit (q.left * 4 + d / 16) (record q { at = 2; left = d % 16; pads = 0 })
advance q (suc (suc zero)) d =
    emit (q.left * 16 + d / 4) (record q { at = 3; left = d % 4; pads = 0 })
advance q (suc (suc (suc n))) d = emit (q.left * 64 + d) (record q { at = 0; left = 0; pads = 0 })

-- `more`: further characters follow.
pad : Bool → Bool → Quad → Move
pad strict more q =
    if leb 2 q.at
    then if leb 4 (q.at + (q.pads + 1))
      then if strict && more then fail else finish
      else skip (record q { pads = q.pads + 1; padding_started = true })
    else skip (record q { padding_started = true })

move : Bool → Char → Bool → Quad → Move
unfolding digit advance pad
move strict c more q = if is_pad c then pad strict more q else elim (digit c) [
  | none ↦ if strict then fail else skip q
  | some d ↦ if strict && q.padding_started then fail else advance q q.at d
]

abbrev prepend : ℕ → Result Bytes → Result Bytes
prepend b (ok bs) = ok (b ∷ bs)
prepend b (err e) = err e

abbrev is_nonempty : String → Bool
is_nonempty String.[] = false
is_nonempty (String.◌∷◌ c s) = true

scan : Bool → String → Quad → Result Bytes
scan strict String.[] q = if q.at == 0 then ok [] else err Exception.binascii_error
scan strict (String.◌∷◌ c s) q = elim (move strict c (is_nonempty s) q) [
  | finish ↦ ok []
  | fail ↦ err Exception.binascii_error
  | skip q' ↦ scan strict s q'
  | emit b q' ↦ prepend b (scan strict s q')
]

-- The strict scan refuses a padding character in front.
abbrev starts_padded : String → Bool
starts_padded String.[] = false
starts_padded (String.◌∷◌ c s) = is_pad c

abbrev is_ascii : String → Bool
is_ascii String.[] = true
is_ascii (String.◌∷◌ c s) = ltb (code c) 128 && is_ascii s

-- `base64.b64decode(s, validate=strict)` of a text
unfoldable pub b64decode : Bool → String → Result Bytes
unfolding scan move
b64decode strict s =
    if is_ascii s
    then if strict && starts_padded s then err Exception.binascii_error else scan strict s start
    else err Exception.value_error
