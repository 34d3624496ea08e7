-- ===== src/Python/Base32/RoundTrip.antt =====
-- Whole groups of five bytes, as `base64.b32encode` writes them, are read back.
use jet_core_service_bus.Prelude.{
  ℕ, ◌+◌, ◌*◌, ◌/◌, ◌%◌, ◌<◌, ◌≡◌, refl, false, some, List, [], ◌∷◌, arith, leb, if◌then◌else◌,
  length, ◌==◌, map, All,
}
use jet_core_service_bus.Python.Exception.{ok}
use jet_core_service_bus.Python.Json.{Bytes}
use jet_core_service_bus.Python.Base64.RoundTrip.{AreBytes}
use jet_core_service_bus.Python.Base32.{digit, digits, group, ungroup, rstrip, b32decode}

-- A character of the alphabet
symbol : ℕ → ℕ
symbol d = if leb d 25 then d + 65 else d + 24

-- The digits of whole groups
to_digits : Bytes → List ℕ
to_digits (a ∷ b ∷ c ∷ d ∷ e ∷ rest) =
    (a / 8)
    ∷ (a % 8 * 4 + b / 64)
    ∷ (b / 2 % 32)
    ∷ (b % 2 * 16 + c / 16)
    ∷ (c % 16 * 2 + d / 128)
    ∷ (d / 4 % 32)
    ∷ (d % 4 * 8 + e / 32)
    ∷ (e % 32)
    ∷ to_digits rest
to_digits _ = []

unfoldable pub b32encode : Bytes → Bytes
unfolding symbol to_digits
b32encode bs = map symbol (to_digits bs)

-- A whole number of groups
abbrev pub AreGroups : Bytes → Type 0
AreGroups [] = Unit
AreGroups (a ∷ b ∷ c ∷ d ∷ e ∷ rest) = AreGroups rest
AreGroups _ = ⊥

digit-symbol : (d : ℕ) → d < 32 → digit (symbol d) ≡ some d
unfolding digit symbol
digit-symbol d h = ground arith

symbol-unpadded : (d : ℕ) → d < 32 → (symbol d == b'=') ≡ false
unfolding symbol
symbol-unpadded d h = ground arith

group-digits :
    (a b c d e : ℕ)
    → a < 256
    → b < 256
    → c < 256
    → d < 256
    → e < 256
    → group
        (a / 8)
        (a % 8 * 4 + b / 64)
        (b / 2 % 32)
        (b % 2 * 16 + c / 16)
        (c % 16 * 2 + d / 128)
        (d / 4 % 32)
        (d % 4 * 8 + e / 32)
        (e % 32)
      ≡ a ∷ b ∷ c ∷ d ∷ e ∷ []
unfolding group
group-digits a b c d e ha hb hc hd he = ground arith

AreDigits : List ℕ → Type 0
AreDigits = All (λ d. d < 32)

to_digits-AreDigits : (bs : Bytes) → AreBytes bs → AreGroups bs → AreDigits (to_digits bs)
unfolding to_digits AreDigits
to_digits-AreDigits [] h g = tt
to_digits-AreDigits (a ∷ b ∷ c ∷ d ∷ e ∷ rest) (ha, (hb, (hc, (hd, (he, hs))))) g = (
  omega arith,
  (
    omega arith,
    (
      omega arith,
      (
        omega arith,
        (omega arith, (omega arith, (omega arith, (omega arith, to_digits-AreDigits rest hs g)))),
      ),
    ),
  ),
)
to_digits-AreDigits (a ∷ []) h g = elim g [ ]
to_digits-AreDigits (a ∷ b ∷ []) h g = elim g [ ]
to_digits-AreDigits (a ∷ b ∷ c ∷ []) h g = elim g [ ]
to_digits-AreDigits (a ∷ b ∷ c ∷ d ∷ []) h g = elim g [ ]

digits-map-symbol : (ds : List ℕ) → AreDigits ds → digits (map symbol ds) ≡ some ds
unfolding digits AreDigits
digits-map-symbol [] h = refl
digits-map-symbol (d ∷ ds) (h, hs) = rw (digit-symbol d h, digits-map-symbol ds hs)

rstrip-map-symbol : (ds : List ℕ) → AreDigits ds → rstrip (map symbol ds) ≡ map symbol ds
unfolding rstrip AreDigits
rstrip-map-symbol [] h = refl
rstrip-map-symbol (d ∷ ds) (h, hs) = rw (symbol-unpadded d h, rstrip-map-symbol ds hs)

ungroup-to_digits : (bs : Bytes) → AreBytes bs → AreGroups bs → ungroup (to_digits bs) ≡ some bs
unfolding ungroup to_digits
ungroup-to_digits [] h g = refl
ungroup-to_digits (a ∷ b ∷ c ∷ d ∷ e ∷ rest) (ha, (hb, (hc, (hd, (he, hs))))) g =
    rw (ungroup-to_digits rest hs g, group-digits a b c d e ha hb hc hd he)
ungroup-to_digits (a ∷ []) h g = elim g [ ]
ungroup-to_digits (a ∷ b ∷ []) h g = elim g [ ]
ungroup-to_digits (a ∷ b ∷ c ∷ []) h g = elim g [ ]
ungroup-to_digits (a ∷ b ∷ c ∷ d ∷ []) h g = elim g [ ]

length-to_digits : (bs : Bytes) → AreGroups bs → length (map symbol (to_digits bs)) % 8 ≡ 0
unfolding to_digits
length-to_digits [] g = refl
length-to_digits (a ∷ b ∷ c ∷ d ∷ e ∷ rest) g = omega (arith, length-to_digits rest g)
length-to_digits (a ∷ []) g = elim g [ ]
length-to_digits (a ∷ b ∷ []) g = elim g [ ]
length-to_digits (a ∷ b ∷ c ∷ []) g = elim g [ ]
length-to_digits (a ∷ b ∷ c ∷ d ∷ []) g = elim g [ ]

pub b32decode-b32encode :
    (bs : Bytes) → AreBytes bs → AreGroups bs → b32decode (b32encode bs) ≡ ok bs
unfolding b32encode
b32decode-b32encode bs h g =
    let ds = to_digits-AreDigits bs h g in
    unfold b32decode in
    rw
      (
        rstrip-map-symbol (to_digits bs) ds,
        digits-map-symbol (to_digits bs) ds,
        length-to_digits bs g,
        ungroup-to_digits bs h g,
      )
      (ground arith)

-- Whole groups need no padding.
pub length-b32encode : (bs : Bytes) → AreGroups bs → length (b32encode bs) % 8 ≡ 0
unfolding b32encode
length-b32encode = length-to_digits
