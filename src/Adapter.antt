-- ===== src/Adapter.antt =====
-- What the adapters' handlers have in common: the exceptions that they catch, the report of a
-- command, and `run_once` (the handlers under adapters/).
pub mod Batch
use jet_core_service_bus.Prelude.{
  if◌then◌else◌, ◌≡◌, refl, arith, ℕ, String, Bool, true, false, none, some, List, [], ◌∷◌, length,
}
use jet_core_service_bus.Python.Exception.{Exception, Result, ok, err}
use jet_core_service_bus.Python.Exec.{Exec, pure, ◌>>=◌}
use jet_core_service_bus.Python.Json.{Bytes}
use jet_core_service_bus.Jetcore.BusClient.{ReceivedEvent, details}
use jet_core_service_bus.Jetcore.BusClient.Sealing.{Publication}

abbrev pub is_malformed : Exception → Bool
is_malformed Exception.malformed_payload_error = true
is_malformed _ = false

abbrev pub is_path_traversal : Exception → Bool
is_path_traversal Exception.path_traversal_error = true
is_path_traversal _ = false

-- What `except (json.JSONDecodeError, KeyError, TypeError)` catches
abbrev pub is_shape_error : Exception → Bool
is_shape_error Exception.json_decode_error = true
is_shape_error Exception.key_error = true
is_shape_error Exception.type_error = true
is_shape_error _ = false

-- `raise MalformedPayloadError(…) from exc`
abbrev pub or_malformed : {A : Type 0} → (Exception → Bool) → Result A → Result A
or_malformed caught (ok a) = ok a
or_malformed caught (err e) = if caught e then err Exception.malformed_payload_error else err e

-- A report carries the id of the command's event.
abbrev pub report : String → Bytes → String → ReceivedEvent → Publication
report subject payload event_type event = record {
  subject = subject;
  payload = payload;
  event_type = event_type;
  event_schema_version = "1.0.0";
  correlation_id = some (details event).event_id;
  msg_id = none;
}

module _ {S : Type 0} (handle : ReceivedEvent → Exec S (Unit {0})) where
  handle_all : List ReceivedEvent → Exec S (Unit {0})
  handle_all [] = pure tt
  handle_all (event ∷ events) = do _ ← handle event; handle_all events

  -- `run_once`
  unfoldable pub run_once : Exec S (List ReceivedEvent) → Exec S ℕ
  unfolding handle_all
  run_once fetch = do events ← fetch; _ ← handle_all events; pure (length events)

pub is_path_traversal-eq :
    (e : Exception) → is_path_traversal e ≡ true → e ≡ Exception.path_traversal_error
is_path_traversal-eq Exception.path_traversal_error h = refl
is_path_traversal-eq e h = absurd (ground arith)

pub is_malformed-eq :
    (e : Exception) → is_malformed e ≡ true → e ≡ Exception.malformed_payload_error
is_malformed-eq Exception.malformed_payload_error h = refl
is_malformed-eq e h = absurd (ground arith)
