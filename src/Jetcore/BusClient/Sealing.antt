-- ===== src/Jetcore/BusClient/Sealing.antt =====
-- How a payload is sealed into an event, before it is published (bus_client.py, `publish`).
use jet_core_service_bus.Prelude.{String, Bool, false, Option, none, some, List, [], ◌∷◌}
use jet_core_service_bus.Python.Exception.{Exception, Result, ok, err, ◌>>=◌}
use jet_core_service_bus.Python.Json.{Bytes, Json}
use jet_core_service_bus.Python.Base64.{b64encode, b64decode}
use jet_core_service_bus.Jetcore.Envelope.{Event, Fresh, Pydantic, from_wire}
use jet_core_service_bus.Jetcore.Crypto.{
  EncryptionKeyPair, Primitives, encrypt_for_recipients, decrypt, verify,
}

abbrev pub encryption_algorithm : String
encryption_algorithm = "age-v1 (X25519 + XChaCha20-Poly1305)"

-- What the constructor is given and nothing changes
pub record Account : Type 0 where
  pub service_id : String
  pub adapter_type : String
  pub encryption_keypair : EncryptionKeyPair
  pub signing_seed : String
  pub signing_public_key : String

-- The arguments of `publish`
pub record Publication : Type 0 where
  pub subject : String
  pub payload : Bytes
  pub event_type : String
  pub event_schema_version : String
  pub correlation_id : Option String
  pub msg_id : Option String

abbrev cons_result : Json → Result (List String) → Result (List String)
cons_result (Json.str k) (ok ks) = ok (k ∷ ks)
cons_result (Json.str k) (err e) = err e
cons_result v r = err Exception.type_error

-- `Recipient.from_str` takes texts only.
pub recipient_texts : List Json → Result (List String)
recipient_texts [] = ok []
recipient_texts (v ∷ vs) = cons_result v (recipient_texts vs)

-- The ciphertext and the recipients that the envelope carries: without recipients nothing is
-- encrypted, and the ciphertext is empty.
unfoldable pub seal : Primitives → List Json → Bytes → Result (Bytes × List String)
unfolding recipient_texts
seal C [] payload = ok ([], [])
seal C (v ∷ vs) payload = do
  keys ← recipient_texts (v ∷ vs)
  ciphertext ← encrypt_for_recipients C payload keys
  ok (ciphertext, keys)

module _ (account : Account) where
  unfoldable pub make_event : Publication → Fresh → Bytes → List String → Bytes → Event
  make_event p fresh ciphertext recipients signature = record {
    event = record {
      event_details = record {
        event_id = fresh.new_event_id;
        event_created = fresh.utc_now;
        event_type = p.event_type;
        event_schema_version = p.event_schema_version;
        source_service_id = account.service_id;
        correlation_id = p.correlation_id;
        signature = some (b64encode signature);
        source_public_key = some account.signing_public_key;
      };
      encryption = record { algorithm = encryption_algorithm; recipients = recipients };
      event_payload = b64encode ciphertext;
    };
  }

-- The signature must be there.
abbrev pub present : Option String → Result String
present none = err Exception.signature_verification_error
present (some s) = ok s

-- The first part of `_process`, up to the test that there is a signature: the event, the payload
-- in plain, and the text of the signature.
unfoldable pub unseal :
    Pydantic → Primitives → Account → Fresh → Bytes → Result (Event × Bytes × String)
unseal D C account fresh bytes = do
  event ← from_wire D fresh bytes
  ciphertext ← b64decode false event.event.event_payload
  plaintext ← decrypt C ciphertext account.encryption_keypair.private_key
  signature ← present event.event.event_details.signature
  ok (event, plaintext, signature)

-- The last part of `_process`
unfoldable pub check_signature : Primitives → String → Bytes → String → Result Bool
check_signature C trusted_key plaintext signature = do
  sig ← b64decode false signature
  verify C trusted_key plaintext sig
