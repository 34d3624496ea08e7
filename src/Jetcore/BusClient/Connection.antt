-- ===== src/Jetcore/BusClient/Connection.antt =====
-- Connecting and closing (libs/jetcore/jetcore/bus_client.py, `connect`, `connect_as_adapter`, `close`).
-- The client keeps the state of what is outside, so the state stands in the client too.
pub mod Trust
pub mod Closing
use jet_core_service_bus.Prelude.{String, List, [], ◌∷◌}
use jet_core_service_bus.Python.Exec.{Exec, pure, lift, ◌>>=◌, always}
use jet_core_service_bus.Python.Dict
use jet_core_service_bus.Jetcore.Config.{AdapterSettings}
use jet_core_service_bus.Jetcore.Creds.{load_signing_keypair}
use jet_core_service_bus.Jetcore.Crypto.{EncryptionKeyPair, SigningKeyPair, encryption_keypair}
use jet_core_service_bus.Jetcore.Registry
use jet_core_service_bus.Jetcore.Registry.{register_identity}
use jet_core_service_bus.Jetcore.Registry.Cache.{RecipientCache, stop}
use jet_core_service_bus.Jetcore.BusClient.{Outside, Client, Run, outside, ok, Result}
use jet_core_service_bus.Jetcore.BusClient.Sealing.{Account}

-- `BusClient.__init__`: nothing is cached or subscribed yet.
unfoldable pub new_client : (O : Outside) → O.platform.State → Client O
new_client O s = record {
  recipient_caches = [];
  subscriptions = [];
  background_tasks = [];
  state = s;
}

unfoldable pub new_account : AdapterSettings → String → EncryptionKeyPair → SigningKeyPair → Account
new_account settings adapter_type encryption signing = record {
  service_id = settings.service_id;
  adapter_type = adapter_type;
  encryption_keypair = encryption;
  signing_seed = signing.seed;
  signing_public_key = signing.public_key;
}

module _ (O : Outside) where
  take_state : Exec O.platform.State (Client O)
  unfolding new_client
  take_state s = pure (new_client O s) s

  -- `connect`: the identity is registered before the client is there.
  unfoldable pub connect : AdapterSettings → Account → Exec O.platform.State (Client O)
  unfolding take_state
  connect settings account = do
    _ ← O.platform.connect settings.nats_url settings.nats_creds_path
    _ ← Registry.connect O.json O.platform
    _ ←
        register_identity O.json O.platform account.service_id account.adapter_type
          account.signing_public_key
    take_state

  -- `connect_as_adapter`: the signing key is that of the credentials, the encryption key is drawn.
  unfoldable pub connect_as_adapter :
      AdapterSettings → String → Exec O.platform.State (Account × Client O)
  connect_as_adapter settings adapter_type = do
    file ← O.platform.read_bytes settings.nats_creds_path
    signing ← lift (load_signing_keypair O.primitives file)
    identity ← always O.platform.generate_identity
    let account =
        new_account settings adapter_type (encryption_keypair O.primitives identity) signing
    client ← connect settings account
    pure (account, client)

  cancel_tasks : Run O (Unit {0})
  cancel_tasks c = (ok tt, record c { background_tasks = [] })

  unfoldable pub stop_all : List RecipientCache → Run O (Unit {0})
  stop_all [] = pure tt
  stop_all (cache ∷ caches) = do _ ← lift (stop cache); stop_all caches

  -- `close`: the heartbeats are cancelled, the caches are stopped, the connection is closed. The tasks
  -- that the client keeps are those that run.
  unfoldable pub close : Run O (Unit {0})
  unfolding cancel_tasks
  close c =
      (do
        _ ← cancel_tasks
        _ ← stop_all (Dict.values c.recipient_caches)
        outside O O.platform.close)
        c

  abbrev state_of : {A : Type 0} → Result A × Client O → Result A × O.platform.State
  state_of (r, c) = (r, c.state)

  abbrev on_client :
      {A : Type 0} → Account → Client O → (Account → Run O A) → Exec O.platform.State A
  on_client account client body s = state_of (body account client)

  -- What a process does with a client that it has connected
  unfoldable pub with_client :
      {A : Type 0} → AdapterSettings → String → (Account → Run O A) → Exec O.platform.State A
  with_client settings adapter_type body = do
    (account, client) ← connect_as_adapter settings adapter_type
    on_client account client body
