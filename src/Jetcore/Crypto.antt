-- ===== src/Jetcore/Crypto.antt =====
-- Payload encryption and event signing (libs/jetcore/jetcore/crypto.py). The primitives of pyrage,
-- nkeys, PyNaCl and SHA-256 are taken as functions.
pub mod Nkey
use jet_core_service_bus.Prelude.{
  ℕ, ◌+◌, ◌-◌, ◌*◌, ◌%◌, String, ◌≡◌, refl, Bool, true, false, not, Option, none, some, List, [],
  ◌∷◌, ◌++◌, length, take, drop, get_or, replicate, ◌==◌, if◌then◌else◌,
}
use jet_core_service_bus.Python.Exception.{Exception, Result, ok, err, ◌>>=◌}
use jet_core_service_bus.Python.Json.{Bytes}
use jet_core_service_bus.Python.Base32.{b32decode}
use jet_core_service_bus.Python.Equality.{contains, string_eq}

pub record EncryptionKeyPair : Type 0 where
  pub private_key : String
  pub public_key : String

pub record SigningKeyPair : Type 0 where
  pub seed : String
  pub public_key : String

-- What the module calls outside: `str.encode`, `bytes.decode`, `hashlib.sha256`, and the three libraries.
pub record Primitives : Type 0 where
  pub encode : String → Bytes
  -- `bytes.decode`
  pub decode : Bytes → Result String
  pub sha256 : Bytes → Bytes
  -- `x25519.Recipient.from_str` at each key, then `pyrage.encrypt`
  pub age_encrypt : Bytes → List String → Result Bytes
  -- `x25519.Identity.from_str`, then `pyrage.decrypt`
  pub age_decrypt : Bytes → String → Result Bytes
  -- `x25519.Identity.from_str(private_key).to_public()`
  pub x25519_public : String → String
  -- `nkeys.from_seed(seed).public_key`
  pub nkey_public : String → Result String
  -- `nkeys.from_seed(seed).sign(digest)`
  pub nkey_sign : String → Bytes → Result Bytes
  pub crc16 : Bytes → ℕ
  -- `nacl.signing.VerifyKey(key).verify(digest, signature)`
  pub nacl_verify : Bytes → Bytes → Bytes → Result (Unit {0})

-- `nkeys.PREFIX_BYTE_USER`
abbrev pub prefix_byte_user : ℕ
prefix_byte_user = 160

-- `int.from_bytes(b, "little")`
pub from_bytes_little : Bytes → ℕ
from_bytes_little [] = 0
from_bytes_little (b ∷ bs) = b + 256 * from_bytes_little bs

-- `b"=" * (-n % 8)`
pub padding : ℕ → Bytes
padding n = replicate ((8 - n % 8) % 8) b'='

abbrev as_value_error {ℓ} : {A : Type ℓ} → Result A → Result A
as_value_error (ok a) = ok a
as_value_error (err e) = err Exception.value_error

-- Only a `BadSignatureError` is turned into `False`.
unfoldable pub verdict : Result (Unit {0}) → Result Bool
verdict (ok _) = ok true
verdict (err Exception.bad_signature_error) = ok false
verdict (err e) = err e

module _ (C : Primitives) where
  -- `generate_encryption_keypair`, for the identity that was drawn
  unfoldable pub encryption_keypair : String → EncryptionKeyPair
  encryption_keypair identity = record {
    private_key = identity;
    public_key = C.x25519_public identity;
  }

  abbrev pub encrypt_for_recipients : Bytes → List String → Result Bytes
  encrypt_for_recipients = C.age_encrypt

  abbrev pub decrypt : Bytes → String → Result Bytes
  decrypt = C.age_decrypt

  unfoldable pub keypair_from_seed : String → Result SigningKeyPair
  keypair_from_seed seed = do
    public_key ← C.nkey_public seed
    ok (record { seed = seed; public_key = public_key })

  abbrev digest : Bytes → Bytes
  digest = C.sha256

  unfoldable pub sign : String → Bytes → Result Bytes
  sign seed plaintext = C.nkey_sign seed (digest plaintext)

  -- The checks on the decoded bytes, in their order
  check_nkey : Bytes → Result Bytes
  unfolding from_bytes_little
  check_nkey raw =
      if length raw == 35
      then if from_bytes_little (drop 33 raw) == C.crc16 (take 33 raw)
        then if get_or raw 0 0 == prefix_byte_user
          then ok (take 32 (drop 1 raw))
          else err Exception.value_error
        else err Exception.value_error
      else err Exception.value_error

  unfoldable pub decode_nkey_public : String → Result Bytes
  unfolding check_nkey padding
  decode_nkey_public public_key = do
    let key = C.encode public_key
    raw ← as_value_error (b32decode (key ++ padding (length key)))
    check_nkey raw

  unfoldable pub verify : String → Bytes → Bytes → Result Bool
  unfolding verdict
  verify public_key plaintext signature = do
    key ← decode_nkey_public public_key
    verdict (C.nacl_verify key (digest plaintext) signature)
