-- ===== src/Tests/Codec.antt =====
-- A JSON library for the tests: values are written as numbers and read back.
use jet_core_service_bus.Prelude.{
  ℕ, zero, suc, ◌+◌, ◌≤◌, ℤ, true, false, ◌≡◌, refl, Option, none, some, List, ◌∷◌, arith, [],
}
use jet_core_service_bus.Python.Json.{Json, Items, Fields}
use jet_core_service_bus.Tests.Characters.{encode_text, decode_text, decode-encode_text}

abbrev Read : Type 0 → Type 0
Read A = Option (A × List ℕ)

abbrev then_read : {A B : Type 0} → Read A → (A → List ℕ → Read B) → Read B
then_read none f = none
then_read (some (a, l)) f = f a l

mutual
  encode : Json → List ℕ → List ℕ
  encode Json.null l = 0 ∷ l
  encode (Json.bool false) l = 1 ∷ l
  encode (Json.bool true) l = 2 ∷ l
  encode (Json.int (ℤ.pos n)) l = 3 ∷ n ∷ l
  encode (Json.int (ℤ.negsuc n)) l = 4 ∷ n ∷ l
  encode (Json.float s) l = 5 ∷ encode_text s l
  encode (Json.str s) l = 6 ∷ encode_text s l
  encode (Json.arr vs) l = 7 ∷ encode_items vs l
  encode (Json.obj fs) l = 8 ∷ encode_fields fs l

  encode_items : Items → List ℕ → List ℕ
  encode_items Items.nil l = 0 ∷ l
  encode_items (Items.cons v vs) l = 1 ∷ encode v (encode_items vs l)

  encode_fields : Fields → List ℕ → List ℕ
  encode_fields Fields.end l = 0 ∷ l
  encode_fields (Fields.field k v fs) l = 1 ∷ encode_text k (encode v (encode_fields fs l))

mutual
  size : Json → ℕ
  size (Json.arr vs) = suc (size_items vs)
  size (Json.obj fs) = suc (size_fields fs)
  size _ = 1

  size_items : Items → ℕ
  size_items Items.nil = 1
  size_items (Items.cons v vs) = suc (size v + size_items vs)

  size_fields : Fields → ℕ
  size_fields Fields.end = 1
  size_fields (Fields.field k v fs) = suc (size v + size_fields fs)

mutual
  decode : ℕ → List ℕ → Read Json
  decode zero l = none
  decode (suc n) (zero ∷ l) = some (Json.null, l)
  decode (suc n) ((suc zero) ∷ l) = some (Json.bool false, l)
  decode (suc n) ((suc (suc zero)) ∷ l) = some (Json.bool true, l)
  decode (suc n) ((suc (suc (suc zero))) ∷ k ∷ l) = some (Json.int (ℤ.pos k), l)
  decode (suc n) ((suc (suc (suc (suc zero)))) ∷ k ∷ l) = some (Json.int (ℤ.negsuc k), l)
  decode (suc n) ((suc (suc (suc (suc (suc zero))))) ∷ l) =
      then_read (decode_text l) λ s l. some (Json.float s, l)
  decode (suc n) ((suc (suc (suc (suc (suc (suc zero)))))) ∷ l) =
      then_read (decode_text l) λ s l. some (Json.str s, l)
  decode (suc n) ((suc (suc (suc (suc (suc (suc (suc zero))))))) ∷ l) =
      then_read (decode_items n l) λ vs l. some (Json.arr vs, l)
  decode (suc n) ((suc (suc (suc (suc (suc (suc (suc (suc zero)))))))) ∷ l) =
      then_read (decode_fields n l) λ fs l. some (Json.obj fs, l)
  decode _ _ = none

  decode_items : ℕ → List ℕ → Read Items
  decode_items (suc n) (zero ∷ l) = some (Items.nil, l)
  decode_items (suc n) ((suc zero) ∷ l) =
      then_read (decode n l) λ v l. then_read (decode_items n l) λ vs l. some (Items.cons v vs, l)
  decode_items _ _ = none

  decode_fields : ℕ → List ℕ → Read Fields
  decode_fields (suc n) (zero ∷ l) = some (Fields.end, l)
  decode_fields (suc n) ((suc zero) ∷ l) = then_read (decode_text l) λ k l.
      then_read (decode n l)
        λ v l. then_read (decode_fields n l) λ fs l. some (Fields.field k v fs, l)
  decode_fields _ _ = none

size-positive : (v : Json) → 1 ≤ size v
unfolding size
size-positive (Json.arr vs) = omega arith
size-positive (Json.obj fs) = omega arith
size-positive v = omega arith

mutual
  unfolding size encode decode

  decode-encode : (v : Json) (n : ℕ) (l : List ℕ) → size v ≤ n → decode n (encode v l) ≡ some (v, l)
  decode-encode v zero l h = absurd (omega (arith, size-positive v))
  decode-encode Json.null (suc n) l h = refl
  decode-encode (Json.bool false) (suc n) l h = refl
  decode-encode (Json.bool true) (suc n) l h = refl
  decode-encode (Json.int (ℤ.pos k)) (suc n) l h = refl
  decode-encode (Json.int (ℤ.negsuc k)) (suc n) l h = refl
  decode-encode (Json.float s) (suc n) l h = rw (decode-encode_text s l) refl
  decode-encode (Json.str s) (suc n) l h = rw (decode-encode_text s l) refl
  decode-encode (Json.arr vs) (suc n) l h = rw (decode-encode_items vs n l (omega arith)) refl
  decode-encode (Json.obj fs) (suc n) l h = rw (decode-encode_fields fs n l (omega arith)) refl

  decode-encode_items :
      (vs : Items) (n : ℕ) (l : List ℕ)
      → size_items vs ≤ n
      → decode_items n (encode_items vs l) ≡ some (vs, l)
  decode-encode_items Items.nil zero l h = absurd (omega arith)
  decode-encode_items (Items.cons v vs) zero l h = absurd (omega arith)
  decode-encode_items Items.nil (suc n) l h = refl
  decode-encode_items (Items.cons v vs) (suc n) l h =
      rw
        (
          decode-encode v n (encode_items vs l) (omega arith),
          decode-encode_items vs n l (omega arith),
        )
        refl

  decode-encode_fields :
      (fs : Fields) (n : ℕ) (l : List ℕ)
      → size_fields fs ≤ n
      → decode_fields n (encode_fields fs l) ≡ some (fs, l)
  decode-encode_fields Fields.end zero l h = absurd (omega arith)
  decode-encode_fields (Fields.field k v fs) zero l h = absurd (omega arith)
  decode-encode_fields Fields.end (suc n) l h = refl
  decode-encode_fields (Fields.field k v fs) (suc n) l h =
      rw
        (
          decode-encode_text k (encode v (encode_fields fs l)),
          decode-encode v n (encode_fields fs l) (omega arith),
          decode-encode_fields fs n l (omega arith),
        )
        refl

-- The size comes first: it bounds the reading.
unfoldable pub dump : Json → List ℕ
unfolding size encode
dump v = size v ∷ encode v []

abbrev whole : Read Json → Option Json
whole (some (v, [])) = some v
whole _ = none

unfoldable pub parse : List ℕ → Option Json
unfolding decode
parse [] = none
parse (n ∷ l) = whole (decode n l)

pub parse-dump : (v : Json) → parse (dump v) ≡ some v
unfolding parse dump
parse-dump v = rw (decode-encode v (size v) [] (omega arith)) refl
