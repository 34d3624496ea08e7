-- ===== src/Jetcore/Crypto/Nkey.antt =====
-- The decoding of nkey public keys (libs/jetcore/jetcore/crypto.py, `_decode_nkey_public`).
use jet_core_service_bus.Prelude.{
  ℕ, zero, suc, ◌*◌, ◌/◌, ◌%◌, ◌<◌, String, ◌≡◌, [], ◌∷◌, ◌++◌, All-append, length, take-append,
  drop-append, length-append, arith, append-nil, drop, take, get_or, Bool-cases, ◌==◌, inr, inl,
}
use jet_core_service_bus.Python.Exception.{Result, ok, err, >>=-eq-ok}
use jet_core_service_bus.Python.Json.{Bytes}
use jet_core_service_bus.Python.Base64.RoundTrip.{AreBytes}
use jet_core_service_bus.Python.Base32.RoundTrip.{
  b32encode, AreGroups, b32decode-b32encode, length-b32encode,
}
use jet_core_service_bus.Jetcore.Crypto.{
  Primitives, prefix_byte_user, check_nkey, decode_nkey_public, as_value_error, padding,
  from_bytes_little, b32decode,
}

AreGroups-of_length : (n : ℕ) (bs : Bytes) → length bs ≡ n * 5 → AreGroups bs
AreGroups-of_length n [] h = tt
AreGroups-of_length zero (a ∷ _) h = absurd (omega arith)
AreGroups-of_length (suc n) (a ∷ b ∷ c ∷ d ∷ e ∷ rest) h = AreGroups-of_length n rest (omega arith)
AreGroups-of_length (suc n) (a ∷ []) h = absurd (omega arith)
AreGroups-of_length (suc n) (a ∷ b ∷ []) h = absurd (omega arith)
AreGroups-of_length (suc n) (a ∷ b ∷ c ∷ []) h = absurd (omega arith)
AreGroups-of_length (suc n) (a ∷ b ∷ c ∷ d ∷ []) h = absurd (omega arith)

as_value_error-ok : {A : Type 0} (x : Result A) (a : A) → as_value_error x ≡ ok a → x ≡ ok a
as_value_error-ok (ok b) a h = h
as_value_error-ok (err e) a h = absurd (ground arith)

module _ (C : Primitives) where
  -- A user's public key as nkeys writes it: the prefix, the key and the checksum, low byte first.
  unfoldable pub nkey_bytes : Bytes → Bytes
  nkey_bytes key =
      let sum = C.crc16 (prefix_byte_user ∷ key) in
      prefix_byte_user ∷ key ++ (sum % 256) ∷ (sum / 256) ∷ []

  module _ (key : Bytes) (are_bytes : AreBytes key) (thirty_two : length key ≡ 32)
      (small : C.crc16 (prefix_byte_user ∷ key) < 65536) where
    nkey_bytes-AreBytes : AreBytes (nkey_bytes key)
    unfolding nkey_bytes
    nkey_bytes-AreBytes = (omega arith, All-append _ key _ are_bytes (omega arith))

    length-nkey_bytes : length (nkey_bytes key) ≡ 35
    unfolding nkey_bytes
    length-nkey_bytes =
        let sum = C.crc16 (prefix_byte_user ∷ key) in
        omega (arith, length-append key ((sum % 256) ∷ (sum / 256) ∷ []))

    check-nkey_bytes : check_nkey C (nkey_bytes key) ≡ ok key
    unfolding check_nkey nkey_bytes
    check-nkey_bytes =
        let sum = C.crc16 (prefix_byte_user ∷ key) in
        let tail : Bytes = (sum % 256) ∷ (sum / 256) ∷ [] in
        rw
          (
            length-nkey_bytes,
            take-append 32 key tail thirty_two,
            drop-append 32 key tail thirty_two,
          )
          (ground arith)

    -- For a key of 32 bytes with a checksum below 2 ^ 16, and a text that encodes its prefix, its
    -- bytes and its checksum in base32, the decoding of the text is the key.
    pub decode-nkey_bytes :
        (public_key : String)
        → C.encode public_key ≡ b32encode (nkey_bytes key)
        → decode_nkey_public C public_key ≡ ok key
    unfolding decode_nkey_public
    decode-nkey_bytes public_key h =
        let groups = AreGroups-of_length 7 (nkey_bytes key) length-nkey_bytes in
        rw
          (
            h,
            length-b32encode (nkey_bytes key) groups,
            append-nil,
            b32decode-b32encode (nkey_bytes key) nkey_bytes-AreBytes groups,
          )
          check-nkey_bytes

  -- The text is a user's public key as nkeys writes it, for these 32 bytes.
  pub record IsUserKey (key : Bytes) (public_key : String) : Type 0 where
    pub are_bytes : AreBytes key
    pub thirty_two : length key ≡ 32
    pub small : C.crc16 (prefix_byte_user ∷ key) < 65536
    pub written : C.encode public_key ≡ b32encode (nkey_bytes key)

  pub decode-user_key :
      (key : Bytes) (public_key : String)
      → IsUserKey key public_key
      → decode_nkey_public C public_key ≡ ok key
  decode-user_key key public_key u =
      decode-nkey_bytes key u.are_bytes u.thirty_two u.small public_key u.written

  -- The bytes that a text stands for pass every check, and the key is what stands between the prefix
  -- and the checksum.
  pub record IsChecked (key raw : Bytes) : Type 0 where
    pub thirty_five : length raw ≡ 35
    pub sum : from_bytes_little (drop 33 raw) ≡ C.crc16 (take 33 raw)
    pub prefix : get_or raw 0 0 ≡ prefix_byte_user
    pub sliced : key ≡ take 32 (drop 1 raw)

  check_nkey-IsChecked : (key raw : Bytes) → check_nkey C raw ≡ ok key → IsChecked key raw
  unfolding check_nkey
  check_nkey-IsChecked key raw h = elim (Bool-cases (length raw == 35)) [
    | inr other ↦ absurd (ground arith)
    | inl long ↦ elim (Bool-cases (from_bytes_little (drop 33 raw) == C.crc16 (take 33 raw))) [
      | inr other ↦ absurd (ground arith)
      | inl summed ↦ elim (Bool-cases (get_or raw 0 0 == prefix_byte_user)) [
        | inr other ↦ absurd (ground arith)
        | inl user ↦ record {
          thirty_five = ground arith;
          sum = ground arith;
          prefix = ground arith;
          sliced = ground arith;
        }
      ]
    ]
  ]

  -- When the decoding of a text returns a key, the padded text stands in base32 for 35 bytes that
  -- begin with the prefix of a user and end with the checksum of the 33 before, low byte first, and
  -- the key is the 32 between: every other text is refused.
  pub decode_nkey_public-IsChecked :
      (public_key : String) (key : Bytes)
      → decode_nkey_public C public_key ≡ ok key
      → (raw : Bytes) × (b32decode (C.encode public_key ++ padding (length (C.encode public_key)))
          ≡ ok raw)
        × IsChecked key raw
  unfolding decode_nkey_public
  decode_nkey_public-IsChecked public_key key h =
      let text = C.encode public_key in
      let (raw, read, checked) =
        >>=-eq-ok (as_value_error (b32decode (text ++ padding (length text)))) (check_nkey C) h in
      (raw, as_value_error-ok _ raw read, check_nkey-IsChecked key raw checked)
