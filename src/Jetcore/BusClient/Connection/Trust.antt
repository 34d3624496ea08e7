-- ===== src/Jetcore/BusClient/Connection/Trust.antt =====
-- The identity of a client that has connected is the one that others look up (bus_client.py).
use jet_core_service_bus.Prelude.{Option-cases, subst, String, ◌≡◌, refl, some, inl, inr, arith}
use jet_core_service_bus.Python.Exception.{ok, Result-cases}
use jet_core_service_bus.Python.Json.{Bytes, RoundTrips}
use jet_core_service_bus.Python.Text.{strip}
use jet_core_service_bus.Jetcore.Config.{AdapterSettings}
use jet_core_service_bus.Jetcore.Creds.{load_signing_keypair, search_seed}
use jet_core_service_bus.Jetcore.Crypto.{SigningKeyPair, keypair_from_seed, encryption_keypair}
use jet_core_service_bus.Jetcore.Registry
use jet_core_service_bus.Jetcore.Registry.{
  identity_bucket_name, register_identity, lookup_signing_key,
}
use jet_core_service_bus.Jetcore.Registry.Identity.{IsBucket, lookup-register_identity}
use jet_core_service_bus.Jetcore.BusClient.{Outside, Client}
use jet_core_service_bus.Jetcore.BusClient.Sealing.{Account}
use jet_core_service_bus.Jetcore.BusClient.Connection.{
  new_client, new_account, connect, connect_as_adapter,
}

module _ (O : Outside) (trips : RoundTrips O.json)
    (bucket : IsBucket O.platform identity_bucket_name) where
  connect-lookup :
      (settings : AdapterSettings) (account : Account) (s s' : O.platform.State) (c : Client O)
      → connect O settings account s ≡ (ok c, s')
      → (lookup_signing_key O.json O.platform account.service_id c.state).0
        ≡ ok (some account.signing_public_key)
  unfolding connect new_client
  connect-lookup settings account s s' c h =
      let opened = O.platform.connect settings.nats_url settings.nats_creds_path s in
      let buckets = Registry.connect O.json O.platform opened.1 in
      let registered =
        register_identity O.json O.platform account.service_id account.adapter_type
          account.signing_public_key buckets.1 in
      elim (Result-cases opened.0) [
        | inr (e, failed) ↦ absurd (ground arith)
        | inl (_, open_) ↦ elim (Result-cases buckets.0) [
          | inr (e, failed) ↦ absurd (ground arith)
          | inl (_, found) ↦ elim (Result-cases registered.0) [
            | inr (e, failed) ↦ absurd (ground arith)
            | inl (_, known) ↦
                lookup-register_identity O.json O.platform trips bucket account.service_id
                  account.adapter_type account.signing_public_key buckets.1 c.state (ground arith)
          ]
        ]
      ]

  load_signing_keypair-public :
      (file : Bytes) (signing : SigningKeyPair)
      → load_signing_keypair O.primitives file ≡ ok signing
      → O.primitives.nkey_public signing.seed ≡ ok signing.public_key
  unfolding load_signing_keypair keypair_from_seed
  load_signing_keypair-public file signing h = elim (Option-cases (search_seed file)) [
    | inl missing ↦ absurd (ground arith)
    | inr (seed, found) ↦ elim (Result-cases (O.primitives.decode seed)) [
      | inr (e, failed) ↦ absurd (ground arith)
      | inl (text, decoded) ↦ elim (Result-cases (O.primitives.nkey_public (strip text))) [
        | inr (e, failed) ↦ absurd (ground arith)
        | inl (public, derived) ↦ ground arith
      ]
    ]
  ]

  abbrev pub IsTrusted : AdapterSettings → Account → Client O → Type 0
  IsTrusted settings account c =
      (account.service_id ≡ settings.service_id)
      × (O.primitives.nkey_public account.signing_seed ≡ ok account.signing_public_key)
      × ((lookup_signing_key O.json O.platform account.service_id c.state).0
          ≡ ok (some account.signing_public_key))

  -- For a JSON module that reads back what it writes, and a bucket that holds what was published
  -- under its subjects: when `connect_as_adapter` returns, the account has the service id of the
  -- settings, its public key is that of its seed, and a lookup of that service id in the world that
  -- the client keeps gives this public key.
  pub connect_as_adapter-IsTrusted :
      (settings : AdapterSettings) (adapter_type : String) (s s' : O.platform.State)
      (account : Account) (c : Client O)
      → connect_as_adapter O settings adapter_type s ≡ (ok (account, c), s')
      → IsTrusted settings account c
  unfolding connect_as_adapter new_account
  connect_as_adapter-IsTrusted settings adapter_type s s' account c h =
      let read = O.platform.read_bytes settings.nats_creds_path s in
      let drawn = O.platform.generate_identity read.1 in
      elim (Result-cases read.0) [
        | inr (e, failed) ↦ absurd (ground arith)
        | inl (file, there) ↦ elim (Result-cases (load_signing_keypair O.primitives file)) [
          | inr (e, failed) ↦ absurd (ground arith)
          | inl (signing, loaded) ↦
              let a =
                new_account settings adapter_type (encryption_keypair O.primitives drawn.0)
                  signing in
              elim (Result-cases (connect O settings a drawn.1).0) [
                | inr (e, failed) ↦ absurd (ground arith)
                | inl (client, made) ↦
                    let same : a ≡ account = ground arith in
                    let same_client : client ≡ c = ground arith in
                    subst (λ x. IsTrusted settings x c) same
                      (subst (IsTrusted settings a) same_client (
                        refl,
                        load_signing_keypair-public file signing loaded,
                        connect-lookup settings a drawn.1 (connect O settings a drawn.1).1 client
                            (ground arith),
                      ))
              ]
        ]
      ]
