-- ===== src/Python/Base32.antt =====
-- `base64.b32decode`, over the bytes of an ASCII text: eight characters make five bytes, and only
-- the last group may be cut short by padding.
pub mod RoundTrip
use jet_core_service_bus.Prelude.{
  ℕ, ◌+◌, ◌-◌, ◌*◌, ◌/◌, ◌%◌, Bool, true, false, ◌&&◌, ◌||◌, Option, none, some, List, [], ◌∷◌,
  ◌++◌, map, length, ◌==◌, leb, if◌then◌else◌,
}
use jet_core_service_bus.Python.Exception.{Exception, Result, ok, err, ◌>>=◌}
use jet_core_service_bus.Python.Json.{Bytes}

digit : ℕ → Option ℕ
digit n =
    if leb b'A' n && leb n b'Z'
    then some (n - 65)
    else if leb b'2' n && leb n b'7'
    then some (n - 24)
    else none

abbrev cons_digit : Option ℕ → Option (List ℕ) → Option (List ℕ)
cons_digit (some d) (some ds) = some (d ∷ ds)
cons_digit _ _ = none

digits : Bytes → Option (List ℕ)
digits [] = some []
digits (c ∷ s) = cons_digit (digit c) (digits s)

-- The bytes of `acc.to_bytes(5)`, for eight digits of five bits
group : ℕ → ℕ → ℕ → ℕ → ℕ → ℕ → ℕ → ℕ → Bytes
group a b c d e f g h =
    (a * 8 + b / 4)
    ∷ (b % 4 * 64 + c * 2 + d / 16)
    ∷ (d % 16 * 16 + e / 2)
    ∷ (e % 2 * 128 + f * 4 + g / 8)
    ∷ (g % 8 * 32 + h)
    ∷ []

-- What is left of the digits after the whole groups: two, four, five or seven of them.
ungroup : List ℕ → Option Bytes
ungroup [] = some []
ungroup (a ∷ b ∷ []) = some ((a * 8 + b / 4) ∷ [])
ungroup (a ∷ b ∷ c ∷ d ∷ []) = some ((a * 8 + b / 4) ∷ (b % 4 * 64 + c * 2 + d / 16) ∷ [])
ungroup (a ∷ b ∷ c ∷ d ∷ e ∷ []) =
    some ((a * 8 + b / 4) ∷ (b % 4 * 64 + c * 2 + d / 16) ∷ (d % 16 * 16 + e / 2) ∷ [])
ungroup (a ∷ b ∷ c ∷ d ∷ e ∷ f ∷ g ∷ []) = some (
    (a * 8 + b / 4)
    ∷ (b % 4 * 64 + c * 2 + d / 16)
    ∷ (d % 16 * 16 + e / 2)
    ∷ (e % 2 * 128 + f * 4 + g / 8)
    ∷ [])
ungroup (a ∷ b ∷ c ∷ d ∷ e ∷ f ∷ g ∷ h ∷ rest) = elim (ungroup rest) [
  | none ↦ none
  | some bs ↦ some (group a b c d e f g h ++ bs)
]
ungroup _ = none

abbrev all_pads : Bytes → Bool
all_pads [] = true
all_pads (c ∷ s) = c == b'=' && all_pads s

-- `s.rstrip(b'=')`
rstrip : Bytes → Bytes
rstrip [] = []
rstrip (c ∷ s) = let rest = rstrip s in if all_pads (c ∷ s) then [] else c ∷ rest

abbrev or_error : Option Bytes → Result Bytes
or_error none = err Exception.binascii_error
or_error (some bs) = ok bs

abbrev decoded : Option (List ℕ) → Result Bytes
decoded none = err Exception.binascii_error
decoded (some ds) = or_error (ungroup ds)

-- The number of padding characters fits the length exactly if the whole is a multiple of eight and
-- less than one group was cut off.
unfoldable pub b32decode : Bytes → Result Bytes
unfolding digit digits group ungroup rstrip
b32decode s =
    let kept = rstrip s in
    if (length s % 8 == 0) && leb (length s) (length kept + 7)
    then decoded (digits kept)
    else err Exception.binascii_error
