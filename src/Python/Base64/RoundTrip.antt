-- ===== src/Python/Base64/RoundTrip.antt =====
-- What `b64encode` writes, both modes of `b64decode` read back.
use Prim.Native.Char.{code}
use Prim.Native.Nat.{ℕ, zero, suc, ◌+◌, ◌*◌, ◌/◌, ◌%◌, ◌<◌}
use jet_core_service_bus.Prelude.{
  String, ◌≡◌, refl, Bool, true, false, ◌&&◌, Option, none, some, [], ◌∷◌, All, ◌==◌, ltb, arith,
  if◌then◌else◌,
}
use jet_core_service_bus.Python.Exception.{ok}
use jet_core_service_bus.Python.Json.{Bytes}
use jet_core_service_bus.Python.Base64.{
  symbol, digit, is_pad, b64encode, Quad, start, move, prepend, scan, starts_padded, is_ascii,
  b64decode, advance, pad, is_nonempty,
}

abbrev pub AreBytes : Bytes → Type 0
AreBytes = All (λ b. b < 256)

-- Every value of the alphabet, checked by evaluation
passes : (ℕ → Bool) → ℕ → Bool
passes test zero = true
passes test (suc last) = passes test last && test last

passes-test : (test : ℕ → Bool) (bound i : ℕ) → passes test bound ≡ true → i < bound → test i ≡ true
unfolding passes
passes-test test zero i all below = elim below [ ]
passes-test test (suc last) i all below = ground (arith, passes-test test last i)

abbrev is_digit : Option ℕ → ℕ → Bool
is_digit none i = false
is_digit (some d) i = d == i

abbrev fits : ℕ → Bool
fits i =
    let c = symbol i in
    is_digit (digit c) i && ltb (code c) 128 && (if is_pad c then false else true)

fits_table : passes fits 64 ≡ true
unfolding passes symbol digit
fits_table = refl

module _ (i : ℕ) (h : i < 64) where
  digit-symbol : digit (symbol i) ≡ some i
  digit-symbol = ground (arith, passes-test fits 64 i fits_table h)

  is_pad-symbol : is_pad (symbol i) ≡ false
  is_pad-symbol = ground (arith, passes-test fits 64 i fits_table h)

  ascii-symbol : ltb (code (symbol i)) 128 ≡ true
  ascii-symbol = ground (arith, passes-test fits 64 i fits_table h)

abbrev quad : ℕ → ℕ → Quad
quad at left = record { at = at; left = left; pads = 0; padding_started = false }

module _ (strict : Bool) where
  move-symbol :
      (i at left : ℕ) (more : Bool)
      → i < 64
      → move strict (symbol i) more (quad at left) ≡ advance (quad at left) at i
  unfolding move
  move-symbol i at left more h = rw (is_pad-symbol i h, digit-symbol i h) (ground arith)

  scan_first :
      (i : ℕ) (s : String)
      → i < 64
      → scan strict (String.◌∷◌ (symbol i) s) start ≡ scan strict s (quad 1 i)
  unfolding scan advance
  scan_first i s h = rw (move-symbol i 0 0 (is_nonempty s) h, scan)

  scan_second :
      (i left : ℕ) (s : String)
      → i < 64
      → scan strict (String.◌∷◌ (symbol i) s) (quad 1 left)
        ≡ prepend (left * 4 + i / 16) (scan strict s (quad 2 (i % 16)))
  unfolding scan advance
  scan_second i left s h = rw (move-symbol i 1 left (is_nonempty s) h, scan)

  scan_third :
      (i left : ℕ) (s : String)
      → i < 64
      → scan strict (String.◌∷◌ (symbol i) s) (quad 2 left)
        ≡ prepend (left * 16 + i / 4) (scan strict s (quad 3 (i % 4)))
  unfolding scan advance
  scan_third i left s h = rw (move-symbol i 2 left (is_nonempty s) h, scan)

  scan_fourth :
      (i left : ℕ) (s : String)
      → i < 64
      → scan strict (String.◌∷◌ (symbol i) s) (quad 3 left)
        ≡ prepend (left * 64 + i) (scan strict s start)
  unfolding scan advance
  scan_fourth i left s h = rw (move-symbol i 3 left (is_nonempty s) h, scan)

  -- Two characters and `==` make one byte, three and `=` make two.
  scan_pads_two : (left : ℕ) → scan strict "==" (quad 2 left) ≡ ok []
  unfolding scan move pad digit
  scan_pads_two left = ground arith

  scan_pad_one : (left : ℕ) → scan strict "=" (quad 3 left) ≡ ok []
  unfolding scan move pad digit
  scan_pad_one left = ground arith

  scan-b64encode : (bs : Bytes) → AreBytes bs → scan strict (b64encode bs) start ≡ ok bs
  unfolding b64encode scan
  scan-b64encode [] h = refl
  scan-b64encode (a ∷ []) (ha, _) =
      rw
        (
          scan_first (a / 4) _ (omega arith),
          scan_second (a % 4 * 16) _ _ (omega arith),
          scan_pads_two,
        )
        (ground arith)
  scan-b64encode (a ∷ b ∷ []) (ha, (hb, _)) =
      rw
        (
          scan_first (a / 4) _ (omega arith),
          scan_second (a % 4 * 16 + b / 16) _ _ (omega arith),
          scan_third (b % 16 * 4) _ _ (omega arith),
          scan_pad_one,
        )
        (ground arith)
  scan-b64encode (a ∷ b ∷ c ∷ rest) (ha, (hb, (hc, hs))) =
      rw
        (
          scan_first (a / 4) _ (omega arith),
          scan_second (a % 4 * 16 + b / 16) _ _ (omega arith),
          scan_third (b % 16 * 4 + c / 64) _ _ (omega arith),
          scan_fourth (c % 64) _ _ (omega arith),
          scan-b64encode rest hs,
        )
        (ground arith)

b64encode_ascii : (bs : Bytes) → AreBytes bs → is_ascii (b64encode bs) ≡ true
unfolding b64encode
b64encode_ascii [] h = refl
b64encode_ascii (a ∷ []) (ha, _) =
    rw (ascii-symbol (a / 4) (omega arith), ascii-symbol (a % 4 * 16) (omega arith))
b64encode_ascii (a ∷ b ∷ []) (ha, (hb, _)) = rw (
  ascii-symbol (a / 4) (omega arith),
  ascii-symbol (a % 4 * 16 + b / 16) (omega arith),
  ascii-symbol (b % 16 * 4) (omega arith),
)
b64encode_ascii (a ∷ b ∷ c ∷ rest) (ha, (hb, (hc, hs))) = rw (
  ascii-symbol (a / 4) (omega arith),
  ascii-symbol (a % 4 * 16 + b / 16) (omega arith),
  ascii-symbol (b % 16 * 4 + c / 64) (omega arith),
  ascii-symbol (c % 64) (omega arith),
  b64encode_ascii rest hs,
)

b64encode_unpadded : (bs : Bytes) → AreBytes bs → starts_padded (b64encode bs) ≡ false
unfolding b64encode
b64encode_unpadded [] h = refl
b64encode_unpadded (a ∷ []) (ha, _) = is_pad-symbol (a / 4) (omega arith)
b64encode_unpadded (a ∷ b ∷ []) (ha, _) = is_pad-symbol (a / 4) (omega arith)
b64encode_unpadded (a ∷ b ∷ c ∷ rest) (ha, _) = is_pad-symbol (a / 4) (omega arith)

pub b64decode-b64encode :
    (strict : Bool) (bs : Bytes) → AreBytes bs → b64decode strict (b64encode bs) ≡ ok bs
unfolding b64decode
b64decode-b64encode strict bs h =
    rw (b64encode_ascii bs h, b64encode_unpadded bs h, scan-b64encode strict bs h) (ground arith)
