-- ===== src/Jetcore/Registry/Cache.antt =====
-- `RecipientCache` of registry.py: the live view of who is registered for one subject.
pub mod Laws
use jet_core_service_bus.Prelude.{
  String, ◌<>◌, Bool, true, false, Option, none, some, List, [], ◌∷◌, if◌then◌else◌,
}
use jet_core_service_bus.Python.Exception.{Exception, Result, ok, err}
use jet_core_service_bus.Python.Json.{Bytes, Json, load_item, JsonModule}
use jet_core_service_bus.Python.Dict
use jet_core_service_bus.Python.Dict.{Dict}
use jet_core_service_bus.Python.Equality.{string_eq}
use jet_core_service_bus.Jetcore.Platform.{
  Operation, kv_put, kv_del, kv_purge, Update, caught_up, entry,
}

-- `failure` is the exception by which the task behind the watch has ended, if it has. The values are what the
-- JSON holds: nothing checks that they are texts.
pub record RecipientCache : Type 0 where
  pub subject : String
  pub entries : Dict String Json
  pub ready : Bool
  pub failure : Option Exception

abbrev pub has_failed : Option Exception → Bool
has_failed none = false
has_failed (some e) = true

-- The task has ended by an exception.
abbrev pub failed : RecipientCache → Bool
failed c = has_failed c.failure

unfoldable pub new_cache : String → RecipientCache
new_cache subject = record { subject = subject; entries = []; ready = false; failure = none }

-- `current()`
unfoldable pub current : RecipientCache → List Json
current c = Dict.values c.entries

module _ (J : JsonModule) where
  -- `json.loads(entry.value)["encryptionPublicKey"]`; `json.loads(None)` is a `TypeError`.
  unfoldable pub public_key_of : Option Bytes → Result Json
  unfolding load_item
  public_key_of none = err Exception.type_error
  public_key_of (some bytes) = load_item J bytes "encryptionPublicKey"

  -- A `JSONDecodeError` or a `KeyError` skips the entry; any other exception ends the task.
  unfoldable pub store : RecipientCache → String → Result Json → RecipientCache
  store c key (ok k) = record c { entries = Dict.insert key k c.entries }
  store c key (err Exception.json_decode_error) = c
  store c key (err Exception.key_error) = c
  store c key (err e) = record c { failure = some e }

  -- One round of the loop in `_consume`
  unfoldable pub consume_one : RecipientCache → Update → RecipientCache
  unfolding store public_key_of
  consume_one c caught_up = record c { ready = true }
  consume_one c (entry key kv_del value) = record c { entries = Dict.erase key c.entries }
  consume_one c (entry key kv_purge value) = record c { entries = Dict.erase key c.entries }
  consume_one c (entry key kv_put value) = store c key (public_key_of value)

  -- `_consume` over the updates that arrive; after a failure nothing reads them.
  unfoldable pub consume : RecipientCache → List Update → RecipientCache
  unfolding consume_one
  consume c [] = c
  consume c (u ∷ us) = if failed c then c else consume (consume_one c u) us

  -- `start()` waits for the first marker. `none`: it waits for ever.
  unfoldable pub start : String → List Update → Option RecipientCache
  unfolding new_cache consume
  start subject us = let c = consume (new_cache subject) us in if c.ready then some c else none

-- `stop()`, once a started cache: the task is cancelled and awaited. Only `CancelledError` is
-- suppressed, so a task that has ended by an exception raises it here.
unfoldable pub stop : RecipientCache → Result (Unit {0})
stop c = elim c.failure [ none ↦ ok tt | some e ↦ err e ]
