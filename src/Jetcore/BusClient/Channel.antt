-- ===== src/Jetcore/BusClient/Channel.antt =====
-- From `publish` to `_process`: a recipient gets the payload that was published.
use jet_core_service_bus.Prelude.{[], ◌∷◌, ◌≡◌, some, false, true, String, arith, List}
use jet_core_service_bus.Python.Exception.{ok, >>=-eq-ok}
use jet_core_service_bus.Python.Json.{Bytes, Json}
use jet_core_service_bus.Python.Equality.{contains, string_eq}
use jet_core_service_bus.Python.Base64.{b64encode}
use jet_core_service_bus.Python.Base64.RoundTrip.{AreBytes, b64decode-b64encode}
use jet_core_service_bus.Jetcore.Envelope.{Event, Fresh, IsFaithful, to_wire}
use jet_core_service_bus.Jetcore.Envelope.RoundTrip.{from_wire-to_wire}
use jet_core_service_bus.Jetcore.Crypto.{Primitives, verify, sign, verdict}
use jet_core_service_bus.Jetcore.Crypto.Nkey.{IsUserKey, decode-user_key}
use jet_core_service_bus.Jetcore.Platform.{Msg}
use jet_core_service_bus.Jetcore.Registry.{lookup_signing_key}
use jet_core_service_bus.Jetcore.BusClient.{Outside, Client, process}
use jet_core_service_bus.Jetcore.BusClient.Sealing.{
  Account, Publication, seal, make_event, unseal, check_signature, recipient_texts,
}

-- What the cryptographic libraries promise: a named recipient decrypts what was encrypted, and
-- PyNaCl finds the signature of a user's seed good under the 32 bytes that nkeys wrote as its public
-- key. A seed of another kind, an account's or an operator's, is promised nothing.
pub record IsSound (C : Primitives) : Type 0 where
  pub decrypt-encrypt :
      (payload : Bytes) (keys : List String) (private_key : String) (ciphertext : Bytes)
      → AreBytes payload
      → C.age_encrypt payload keys ≡ ok ciphertext
      → contains keys (C.x25519_public private_key) ≡ true
      → AreBytes ciphertext × (C.age_decrypt ciphertext private_key ≡ ok payload)
  pub verify-sign :
      (seed public_key : String) (key digest signature : Bytes)
      → C.nkey_public seed ≡ ok public_key
      → IsUserKey C key public_key
      → C.nkey_sign seed digest ≡ ok signature
      → AreBytes signature × (C.nacl_verify key digest signature ≡ ok tt)

-- With a recipient among the keys, the payload was encrypted for them.
encrypted_of_seal :
    (C : Primitives) (recipients : List Json) (payload ciphertext : Bytes) (keys : List String)
    (key : String)
    → seal C recipients payload ≡ ok (ciphertext, keys)
    → contains keys key ≡ true
    → C.age_encrypt payload keys ≡ ok ciphertext
unfolding seal
encrypted_of_seal C [] payload ciphertext keys key h member = ground arith
encrypted_of_seal C (v ∷ vs) payload ciphertext keys key h member =
    let (ks, texts, h1) = >>=-eq-ok (recipient_texts (v ∷ vs)) _ h in
    let (ct, encrypted, h2) = >>=-eq-ok (C.age_encrypt payload ks) _ h1 in ground arith

module _ (O : Outside) (faithful : IsFaithful O.pydantic) (sound : IsSound O.primitives)
    (sender receiver : Account) (p : Publication) (fresh : Fresh) (recipients : List Json)
    (ciphertext : Bytes) (keys : List String) (signature : Bytes)
    (sealed : seal O.primitives recipients p.payload ≡ ok (ciphertext, keys))
    (signed : sign O.primitives sender.signing_seed p.payload ≡ ok signature)
    (are_bytes : AreBytes p.payload)
    (own_key : O.primitives.nkey_public sender.signing_seed ≡ ok sender.signing_public_key)
    (key : Bytes) (user : IsUserKey O.primitives key sender.signing_public_key)
    (addressed : contains keys (O.primitives.x25519_public receiver.encryption_keypair.private_key)
      ≡ true) where
  encrypted : O.primitives.age_encrypt p.payload keys ≡ ok ciphertext
  encrypted = encrypted_of_seal O.primitives recipients p.payload ciphertext keys _ sealed addressed

  abbrev event : Event
  event = make_event sender p fresh ciphertext keys signature

  unseal-event :
      (other : Fresh)
      → unseal O.pydantic O.primitives receiver other (to_wire O.pydantic event)
        ≡ ok (event, p.payload, b64encode signature)
  unfolding unseal make_event
  unseal-event other =
      let (bytes, decrypted) =
        sound.decrypt-encrypt p.payload keys receiver.encryption_keypair.private_key ciphertext
          are_bytes encrypted addressed in
      rw (
        from_wire-to_wire O.pydantic other event faithful,
        b64decode-b64encode false ciphertext bytes,
        decrypted,
      )

  check-event :
      check_signature O.primitives sender.signing_public_key p.payload (b64encode signature)
      ≡ ok true
  unfolding check_signature verify sign verdict
  check-event =
      let (bytes, good) =
        sound.verify-sign sender.signing_seed sender.signing_public_key key
          (O.primitives.sha256 p.payload) signature own_key user signed in
      rw (
        b64decode-b64encode false signature bytes,
        decode-user_key O.primitives key sender.signing_public_key user,
        good,
      )

  -- For faithful pydantic and sound primitives: when the payload is a list of bytes, was sealed for
  -- keys that name the receiver's and was signed with the sender's seed, whose public key is the
  -- sender's and is the text that nkeys writes for a user's key of 32 bytes, and a message carries
  -- the bytes of the event that was made of it, and the identity directory gives the sender's key,
  -- then `process` on the receiver's side returns that event with the published payload.
  pub process-event :
      (msg : Msg) (c : Client O)
      → msg.bytes ≡ to_wire O.pydantic event
      → (lookup_signing_key O.json O.platform sender.service_id (O.platform.fresh c.state).1).0
        ≡ ok (some sender.signing_public_key)
      → (process O receiver msg c).0 ≡ ok (record { event = event; payload = p.payload; msg = msg })
  unfolding process make_event
  process-event msg c bytes known =
      let opened : unseal O.pydantic O.primitives receiver (O.platform.fresh c.state).0 msg.bytes
          ≡ ok (event, p.payload, b64encode signature) =
        rw bytes (unseal-event (O.platform.fresh c.state).0) in
      ground (arith, check-event)
