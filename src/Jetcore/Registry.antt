-- ===== src/Jetcore/Registry.antt =====
-- The service directory and the identity directory (libs/jetcore/jetcore/registry.py).
pub mod Cache
pub mod Identity
use jet_core_service_bus.Prelude.{
  ℕ, zero, suc, String, ◌<>◌, ◌*◌, Bool, true, false, Option, none, some, List, [], ◌∷◌,
  if◌then◌else◌,
}
use jet_core_service_bus.Python.Exception.{Exception, Result, ok, err}
use jet_core_service_bus.Python.Exec.{
  Exec, pure, lift, ◌>>=◌, except, except_return, always, any_exception,
}
use jet_core_service_bus.Python.Json.{Bytes, Json, Fields, load_item, to_str, JsonModule}
use jet_core_service_bus.Jetcore.Platform.{Platform, PubAck}
use jet_core_service_bus.Jetcore.Registry.Cache.{RecipientCache, start}

abbrev pub bucket_name : String
bucket_name = "service-directory"

abbrev pub identity_bucket_name : String
identity_bucket_name = "service-identity"

-- 90 days
abbrev pub identity_ttl_seconds : ℕ
identity_ttl_seconds = 90 * 24 * 60 * 60

abbrev lookup_retry_attempts : ℕ
lookup_retry_attempts = 3

-- In milliseconds
abbrev lookup_retry_delay : ℕ
lookup_retry_delay = 50

-- `<subject>.<serviceId>`
abbrev pub kv_key : String → String → String
kv_key subject service_id = subject <> "." <> service_id

-- The keyword arguments of a registration
pub record Registration : Type 0 where
  pub subject : String
  pub service_id : String
  pub adapter_type : String
  pub encryption_public_key : String

module _ (J : JsonModule) where
  registration_value : Registration → String → Bytes
  registration_value r registered_at = J.dumps (
      Json.obj (
        Fields.field "serviceId" (Json.str r.service_id) (
          Fields.field "adapterType" (Json.str r.adapter_type) (
            Fields.field "encryptionPublicKey" (Json.str r.encryption_public_key)
              (Fields.field "registeredAt" (Json.str registered_at) Fields.end)))))

  identity_value : String → String → String → String → Bytes
  identity_value service_id adapter_type signing_public_key registered_at = J.dumps (
      Json.obj (
        Fields.field "serviceId" (Json.str service_id) (
          Fields.field "adapterType" (Json.str adapter_type) (
            Fields.field "signingPublicKey" (Json.str signing_public_key)
              (Fields.field "registeredAt" (Json.str registered_at) Fields.end)))))

  -- `str(value["signingPublicKey"])`, and the exceptions that are caught around it
  signing_key : Result Json → Result (Option String)
  unfolding to_str
  signing_key (ok v) = ok (some (to_str J v))
  signing_key (err Exception.json_decode_error) = ok none
  signing_key (err Exception.key_error) = ok none
  signing_key (err e) = err e

  -- The entry of one key in `lookup_recipients`: it is appended, skipped or raised.
  recipient_of : Result Json → Result (Option Json)
  recipient_of (ok v) = ok (some v)
  recipient_of (err Exception.json_decode_error) = ok none
  recipient_of (err Exception.key_error) = ok none
  recipient_of (err e) = err e

  unfoldable pub signing_key_in : Option Bytes → Result (Option String)
  unfolding signing_key load_item
  signing_key_in none = ok none
  signing_key_in (some bytes) = signing_key (load_item J bytes "signingPublicKey")

  recipient_in : Option Bytes → Result (Option Json)
  unfolding recipient_of load_item
  recipient_in none = ok none
  recipient_in (some bytes) = recipient_of (load_item J bytes "encryptionPublicKey")

abbrev pub is_key_not_found : Exception → Bool
is_key_not_found Exception.key_not_found_error = true
is_key_not_found _ = false

abbrev is_no_keys : Exception → Bool
is_no_keys Exception.no_keys_error = true
is_no_keys _ = false

abbrev append_some : Option Json → List Json → List Json
append_some none vs = vs
append_some (some v) vs = v ∷ vs

module _ (J : JsonModule) (P : Platform) where
  -- `RegistryClient.connect`
  unfoldable pub connect : Exec P.State (Unit {0})
  connect = do _ ← P.key_value bucket_name; P.key_value identity_bucket_name

  unfoldable pub register : Registration → Exec P.State (Unit {0})
  unfolding registration_value
  register r = do
    registered_at ← always P.now_isoformat
    P.kv_put bucket_name (kv_key r.subject r.service_id) (registration_value J r registered_at)

  unfoldable pub deregister : String → String → Exec P.State (Unit {0})
  deregister subject service_id = P.kv_delete bucket_name (kv_key subject service_id)

  unfoldable pub register_identity : String → String → String → Exec P.State (Unit {0})
  unfolding identity_value
  register_identity service_id adapter_type signing_public_key = do
    registered_at ← always P.now_isoformat
    _ ←
        P.js_publish ("$KV." <> identity_bucket_name <> "." <> service_id)
          (identity_value J service_id adapter_type signing_public_key registered_at) none
          (some identity_ttl_seconds)
    pure tt

  unfoldable pub lookup_signing_key : String → Exec P.State (Option String)
  lookup_signing_key service_id =
      except_return (P.kv_get identity_bucket_name service_id) is_key_not_found (pure none)
        (λ value. lift (signing_key_in J value))

  -- `heartbeat`: the first registration is awaited and may raise; the task of the loop is the
  -- registration that it repeats.
  unfoldable pub heartbeat : Registration → Exec P.State Registration
  heartbeat r = do _ ← register r; pure r

  -- One round of the loop, after its sleep: a failure is logged.
  unfoldable pub beat : Registration → Exec P.State (Unit {0})
  unfolding register
  beat r = except (register r) any_exception (λ _. pure tt)

  -- `watch`: `none` stands for a `start()` that never returns.
  unfoldable pub watch : String → Exec P.State (Option RecipientCache)
  watch subject = do us ← P.kv_watch bucket_name (subject <> ".*"); pure (start J subject us)

  -- The attempts that are left; `none` is the early `return []`.
  find_keys : ℕ → String → Exec P.State (Option (List String))
  find_keys zero prefix = pure none
  find_keys (suc zero) prefix =
      except_return (P.kv_keys bucket_name prefix) is_no_keys (pure none) (λ keys. pure (some keys))
  find_keys (suc (suc n)) prefix =
      except_return (P.kv_keys bucket_name prefix) is_no_keys
        (do _ ← P.sleep lookup_retry_delay; find_keys (suc n) prefix) (λ keys. pure (some keys))

  collect : List String → Exec P.State (List Json)
  unfolding recipient_in
  collect [] = pure []
  collect (key ∷ keys) = do
    value ← P.kv_get bucket_name key
    found ← lift (recipient_in J value)
    rest ← collect keys
    pure (append_some found rest)

  abbrev collect_found : Option (List String) → Exec P.State (List Json)
  collect_found none = pure []
  collect_found (some keys) = collect keys

  unfoldable pub lookup_recipients : String → Exec P.State (List Json)
  unfolding find_keys collect
  lookup_recipients subject = do
    keys ← find_keys lookup_retry_attempts (subject <> ".")
    collect_found keys
