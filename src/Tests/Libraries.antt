-- ===== src/Tests/Libraries.antt =====
-- Libraries and a message bus in memory, with the promises that the properties ask of them.
use Prim.Native.Char.{code}
use jet_core_service_bus.Prelude.{
  sym, subst, ℕ, zero, suc, ◌%◌, String, ◌≡◌, refl, Option, none, some, [], ◌∷◌, length, replicate,
  arith, if◌then◌else◌, str_eq, ◌==◌,
}
use jet_core_service_bus.Python.Exception.{ok-injective, Exception, Result, ok, err}
use jet_core_service_bus.Python.Json.{Bytes, Json, JsonModule, RoundTrips}
use jet_core_service_bus.Python.Base64.RoundTrip.{AreBytes}
use jet_core_service_bus.Jetcore.Envelope.{Pydantic, IsFaithful}
use jet_core_service_bus.Jetcore.Crypto.{Primitives}
use jet_core_service_bus.Jetcore.BusClient.Channel.{IsSound}
use jet_core_service_bus.Jetcore.Crypto.Nkey.{IsUserKey, nkey_bytes}
use jet_core_service_bus.Python.Base32.RoundTrip.{b32encode}
use jet_core_service_bus.Tests.Codec.{dump, parse, parse-dump}

unfoldable pub ticks : ℕ → String
ticks zero = ""
ticks (suc n) = String.◌∷◌ "t" (ticks n)

unfoldable pub count : String → ℕ
count String.[] = 0
count (String.◌∷◌ c s) = suc (count s)

count-ticks : (n : ℕ) → count (ticks n) ≡ n
unfolding count ticks
count-ticks zero = refl
count-ticks (suc n) = ground (arith, count-ticks n)

abbrev pub test_pydantic : Pydantic
test_pydantic = record {
  parse_json = parse;
  dump_json = dump;
  parse_datetime = λ s. some (count s);
  datetime_of_number = λ v. none;
  dump_datetime = ticks;
}

pub test_pydantic-IsFaithful : IsFaithful test_pydantic
test_pydantic-IsFaithful = record {
  parse-dump_json = parse-dump;
  parse-dump_datetime = λ t. rw (count-ticks t) refl;
}

-- Byte 255 alone stands for a text that is not in UTF-8.
abbrev pub loaded : Bytes → Option Json → Result Json
loaded raw (some v) = ok v
loaded (zero ∷ l) none = err Exception.unicode_decode_error
loaded raw none = err Exception.json_decode_error

abbrev pub test_json : JsonModule
test_json = record { loads = λ raw. loaded raw (parse raw); dumps = dump; repr = λ v. "None" }

pub test_json-RoundTrips : RoundTrips test_json
test_json-RoundTrips = record { loads-dumps = λ v. rw (parse-dump v) refl }

abbrev pub key_bytes : Bytes
key_bytes = replicate 32 7

abbrev pub public_text : String
public_text = "UADQOBYHA4DQOBYHA4DQOBYHA4DQOBYHA4DQOBYHA4DQOBYHA4DQOAAA"

unfoldable pub codes : String → Bytes
codes String.[] = []
codes (String.◌∷◌ c s) = code c ∷ codes s

abbrev checksum : Bytes → ℕ
checksum bs = length bs % 256

abbrev pub test_primitives : Primitives
test_primitives = record {
  encode = codes;
  decode = λ bs. ok "SU";
  sha256 = λ bs. bs;
  age_encrypt = λ payload keys. ok payload;
  age_decrypt = λ ciphertext key. ok ciphertext;
  x25519_public = λ key. key;
  nkey_public = λ seed. if str_eq seed "SU" then ok public_text else err Exception.value_error;
  nkey_sign = λ seed digest. ok (checksum digest ∷ []);
  crc16 = λ bs. 0;
  nacl_verify = λ key digest signature.
      if length signature == 1 then ok tt else err Exception.bad_signature_error;
}

signature-checksum :
    (key digest signature : Bytes)
    → ok (checksum digest ∷ []) ≡ ok signature
    → AreBytes signature × (test_primitives.nacl_verify key digest signature ≡ ok tt)
signature-checksum key digest signature h =
    subst (λ x. AreBytes x × (test_primitives.nacl_verify key digest x ≡ ok tt)) (ok-injective h)
      ((omega arith, tt), refl)

replicate-AreBytes : (n : ℕ) → AreBytes (replicate n 7)
replicate-AreBytes zero = tt
replicate-AreBytes (suc n) = (omega arith, replicate-AreBytes n)

pub key_bytes-AreBytes : AreBytes key_bytes
key_bytes-AreBytes = replicate-AreBytes 32

pub written_key : codes public_text ≡ b32encode (nkey_bytes test_primitives key_bytes)
unfolding codes b32encode nkey_bytes
written_key = refl

pub public_text-IsUserKey : IsUserKey test_primitives key_bytes public_text
public_text-IsUserKey = record {
  are_bytes = key_bytes-AreBytes;
  thirty_two = refl;
  small = omega arith;
  written = written_key;
}

pub test_primitives-IsSound : IsSound test_primitives
test_primitives-IsSound = record {
  decrypt-encrypt = λ payload keys private_key ciphertext are_bytes encrypted named.
      (subst AreBytes (ok-injective encrypted) are_bytes, sym encrypted);
  verify-sign = λ seed public_key key digest signature public user signed.
      signature-checksum key digest signature signed;
}
