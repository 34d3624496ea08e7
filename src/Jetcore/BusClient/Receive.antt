-- ===== src/Jetcore/BusClient/Receive.antt =====
-- What a received event that reaches the caller is known to be (bus_client.py, `_process`).
use jet_core_service_bus.Prelude.{
  none, refl, false, ◌≡◌, String, some, true, Option, arith, inr, inl,
}
use jet_core_service_bus.Python.Exception.{Result, ok, >>=-eq-ok, Result-cases}
use jet_core_service_bus.Python.Json.{Bytes}
use jet_core_service_bus.Python.Base64.{b64decode}
use jet_core_service_bus.Jetcore.Envelope.{Event, Fresh, from_wire}
use jet_core_service_bus.Jetcore.Crypto.{decrypt, verify}
use jet_core_service_bus.Jetcore.Platform.{Msg}
use jet_core_service_bus.Jetcore.Registry.{lookup_signing_key}
use jet_core_service_bus.Jetcore.BusClient.{
  Outside, Client, ReceivedEvent, details, process, unseal, check_signature,
}
use jet_core_service_bus.Jetcore.BusClient.Sealing.{Account, unseal, check_signature, present}

module _ (O : Outside) (account : Account) where
  -- The event is what the message says, its payload is what this account's key decrypts, and the
  -- payload carries a signature that is good under the key that the identity directory has for the
  -- sender that the event names.
  pub record IsAuthentic (msg : Msg) (c : Client O) (e : ReceivedEvent) : Type 0 where
    pub same_msg : e.msg ≡ msg
    pub parsed : (fresh : Fresh) × (from_wire O.pydantic fresh msg.bytes ≡ ok e.event)
    pub decrypted :
        (ciphertext : Bytes) × (b64decode false e.event.event.event_payload ≡ ok ciphertext)
        × (decrypt O.primitives ciphertext account.encryption_keypair.private_key ≡ ok e.payload)
    pub signed :
        (text : String) × (sig : Bytes) × (trusted_key : String) × (s : O.platform.State)
        × (s' : O.platform.State) × ((details e).signature ≡ some text)
        × (b64decode false text ≡ ok sig)
        × (lookup_signing_key O.json O.platform (details e).source_service_id s
            ≡ (ok (some trusted_key), s'))
        × (verify O.primitives trusted_key e.payload sig ≡ ok true)

  module _ (fresh : Fresh) (bytes : Bytes) (event : Event) (plaintext : Bytes) (text : String) where
    Unsealed : Type 0
    Unsealed =
        (from_wire O.pydantic fresh bytes ≡ ok event)
        × (ciphertext : Bytes) × (b64decode false event.event.event_payload ≡ ok ciphertext)
        × (decrypt O.primitives ciphertext account.encryption_keypair.private_key ≡ ok plaintext)
        × (event.event.event_details.signature ≡ some text)

    unseal-Unsealed :
        unseal O.pydantic O.primitives account fresh bytes ≡ ok (event, plaintext, text) → Unsealed
    unfolding unseal Unsealed
    unseal-Unsealed h =
        let (ev, parsed, h1) = >>=-eq-ok (from_wire O.pydantic fresh bytes) _ h in
        let (ciphertext, decoded, h2) = >>=-eq-ok (b64decode false ev.event.event_payload) _ h1 in
        let (plain, decrypted, h3) =
          >>=-eq-ok (decrypt O.primitives ciphertext account.encryption_keypair.private_key) _ h2 in
        let (signature, there, h4) = >>=-eq-ok (present ev.event.event_details.signature) _ h3 in
        (ground arith, ciphertext, ground arith, ground arith, ground arith)

  check_signature-ok :
      (key : String) (plaintext : Bytes) (text : String)
      → check_signature O.primitives key plaintext text ≡ ok true
      → (sig : Bytes) × (b64decode false text ≡ ok sig)
        × (verify O.primitives key plaintext sig ≡ ok true)
  unfolding check_signature
  check_signature-ok key plaintext text h = >>=-eq-ok (b64decode false text) _ h

  module _ (msg : Msg) (c : Client O) (e : ReceivedEvent) (c' : Client O) where
    abbrev fresh : Fresh
    fresh = (O.platform.fresh c.state).0

    abbrev looked_up : Event → Result (Option String) × O.platform.State
    looked_up event =
        lookup_signing_key O.json O.platform event.event.event_details.source_service_id
          (O.platform.fresh c.state).1

    Parts : Type 0
    Parts =
        (event : Event) × (plaintext : Bytes) × (text : String) × (key : String) × (unseal
            O.pydantic O.primitives account fresh msg.bytes
          ≡ ok (event, plaintext, text))
        × ((looked_up event).0 ≡ ok (some key))
        × (check_signature O.primitives key plaintext text ≡ ok true)
        × (e ≡ record { event = event; payload = plaintext; msg = msg })

    process-Parts : process O account msg c ≡ (ok e, c') → Parts
    unfolding process Parts
    process-Parts h = elim (Result-cases (unseal O.pydantic O.primitives account fresh msg.bytes)) [
      | inr (x, failed) ↦ absurd (ground arith)
      | inl ((event, plaintext, text), opened) ↦ elim (Result-cases (looked_up event).0) [
        | inr (x, failed) ↦ absurd (ground arith)
        | inl (none, found) ↦ absurd (ground arith)
        | inl (some key, found) ↦
            elim (Result-cases (check_signature O.primitives key plaintext text)) [
              | inr (x, failed) ↦ absurd (ground arith)
              | inl (false, checked) ↦ absurd (ground arith)
              | inl (true, checked) ↦
                  (event, plaintext, text, key, opened, found, checked, ground arith)
            ]
      ]
    ]

    -- When `process` returns an event, it is authentic: it was parsed from the message, its payload
    -- was decrypted with the account's own key, and its signature is good under the key that a
    -- lookup of the named sender gave. Nothing is assumed of the libraries.
    pub process-IsAuthentic : process O account msg c ≡ (ok e, c') → IsAuthentic msg c e
    unfolding Parts Unsealed
    process-IsAuthentic h =
        let (event, plaintext, text, key, opened, found, checked, same) = process-Parts h in
        let (parsed, ciphertext, decoded, decrypted, there) =
          unseal-Unsealed fresh msg.bytes event plaintext text opened in
        let (sig, read, good) = check_signature-ok key plaintext text checked in
        rw same (record {
          same_msg = refl;
          parsed = (fresh, parsed);
          decrypted = (ciphertext, decoded, decrypted);
          signed = (
            text,
            sig,
            key,
            (O.platform.fresh c.state).1,
            (looked_up event).1,
            there,
            read,
            ground arith,
            good,
          );
        })
