-- ===== src/Jetcore/Envelope.antt =====
-- The event envelope (libs/jetcore/jetcore/envelope.py): the four models, and the wire format that
-- their field declarations give. JSON text, dates and fresh identifiers come from outside.
pub mod RoundTrip
use jet_core_service_bus.Prelude.{ℕ, String, ◌≡◌, Option, none, some, List, [], ◌∷◌}
use jet_core_service_bus.Python.Exception.{Exception, Result, ok, err, ◌>>=◌}
use jet_core_service_bus.Python.Json.{Bytes, Json, Items, Fields, find_field}

-- A `datetime` is a number of microseconds since the epoch, in UTC.
pub record EventDetails : Type 0 where
  pub event_id : String
  pub event_created : ℕ
  pub event_type : String
  pub event_schema_version : String
  pub source_service_id : String
  pub correlation_id : Option String
  pub signature : Option String
  pub source_public_key : Option String

pub record EncryptionMetadata : Type 0 where
  pub algorithm : String
  pub recipients : List String

pub record EventEnvelope : Type 0 where
  pub event_details : EventDetails
  pub encryption : EncryptionMetadata
  pub event_payload : String

pub record Event : Type 0 where
  pub event : EventEnvelope

-- What the models take from pydantic: JSON text, and dates in it.
pub record Pydantic : Type 0 where
  pub parse_json : Bytes → Option Json
  pub dump_json : Json → Bytes
  pub parse_datetime : String → Option ℕ
  -- A number of seconds or of milliseconds since the epoch, by its size
  pub datetime_of_number : Json → Option ℕ
  pub dump_datetime : ℕ → String

-- What it writes it reads back.
pub record IsFaithful (P : Pydantic) : Type 0 where
  pub parse-dump_json : (v : Json) → P.parse_json (P.dump_json v) ≡ some v
  pub parse-dump_datetime : (t : ℕ) → P.parse_datetime (P.dump_datetime t) ≡ some t

-- The values of `new_event_id()` and `utc_now()` at a call
pub record Fresh : Type 0 where
  pub new_event_id : String
  pub utc_now : ℕ

abbrev dump_optional : Option String → Json
dump_optional none = Json.null
dump_optional (some s) = Json.str s

dump_texts : List String → Items
dump_texts [] = Items.nil
dump_texts (s ∷ ss) = Items.cons (Json.str s) (dump_texts ss)

module _ (P : Pydantic) where
  dump_details : EventDetails → Json
  dump_details d = Json.obj (
      Fields.field "eventId" (Json.str d.event_id) (
        Fields.field "eventCreated" (Json.str (P.dump_datetime d.event_created)) (
          Fields.field "eventType" (Json.str d.event_type) (
            Fields.field "eventSchemaVersion" (Json.str d.event_schema_version) (
              Fields.field "sourceServiceId" (Json.str d.source_service_id) (
                Fields.field "correlationId" (dump_optional d.correlation_id) (
                  Fields.field "signature" (dump_optional d.signature) (
                    Fields.field "sourcePublicKey" (dump_optional d.source_public_key)
                      Fields.end))))))))

  dump_encryption : EncryptionMetadata → Json
  unfolding dump_texts
  dump_encryption m = Json.obj (
      Fields.field "algorithm" (Json.str m.algorithm)
        (Fields.field "recipients" (Json.arr (dump_texts m.recipients)) Fields.end))

  -- `model_dump_json(by_alias=True)`
  unfoldable pub to_wire : Event → Bytes
  unfolding dump_details dump_encryption
  to_wire e = P.dump_json (
      Json.obj (
        Fields.field "event"
          (Json.obj (
            Fields.field "eventDetails" (dump_details e.event.event_details) (
              Fields.field "encryption" (dump_encryption e.event.encryption)
                (Fields.field "eventPayload" (Json.str e.event.event_payload) Fields.end))))
          Fields.end))

-- The validation of one field: its kind decides what the value may be.
abbrev invalid {ℓ} : {A : Type ℓ} → Result A
invalid = err Exception.validation_error

text : Json → Result String
text (Json.str s) = ok s
text _ = invalid

optional_text : Json → Result (Option String)
optional_text Json.null = ok none
optional_text (Json.str s) = ok (some s)
optional_text _ = invalid

texts : Items → Result (List String)
unfolding text
texts Items.nil = ok []
texts (Items.cons v vs) = do s ← text v; ss ← texts vs; ok (s ∷ ss)

text_list : Json → Result (List String)
unfolding texts
text_list (Json.arr vs) = texts vs
text_list _ = invalid

fields_of : Json → Result Fields
fields_of (Json.obj fs) = ok fs
fields_of _ = invalid

-- `populate_by_name`: a field goes by its alias or, where that is missing, by its own name.
abbrev otherwise : Option Json → Option Json → Option Json
otherwise none v = v
otherwise (some v) _ = some v

field_value : Fields → String → String → Option Json
field_value fs alias name = otherwise (find_field fs alias) (find_field fs name)

abbrev required {ℓ} : {A : Type ℓ} → (Json → Result A) → Option Json → Result A
required f none = invalid
required f (some v) = f v

abbrev defaulted {ℓ} : {A : Type ℓ} → (Json → Result A) → A → Option Json → Result A
defaulted f a none = ok a
defaulted f a (some v) = f v

abbrev from_option {ℓ} : {A : Type ℓ} → Option A → Result A
from_option none = invalid
from_option (some a) = ok a

module _ (P : Pydantic) where
  datetime : Json → Result ℕ
  datetime (Json.str s) = from_option (P.parse_datetime s)
  datetime (Json.int n) = from_option (P.datetime_of_number (Json.int n))
  datetime (Json.float s) = from_option (P.datetime_of_number (Json.float s))
  datetime _ = invalid

  details_of : Fresh → Json → Result EventDetails
  unfolding fields_of field_value datetime text optional_text
  details_of fresh v = do
    fs ← fields_of v
    event_id ← defaulted text fresh.new_event_id (field_value fs "eventId" "event_id")
    created ← defaulted datetime fresh.utc_now (field_value fs "eventCreated" "event_created")
    event_type ← required text (field_value fs "eventType" "event_type")
    version ← required text (field_value fs "eventSchemaVersion" "event_schema_version")
    source ← required text (field_value fs "sourceServiceId" "source_service_id")
    correlation ← defaulted optional_text none (field_value fs "correlationId" "correlation_id")
    signature ← defaulted optional_text none (field_value fs "signature" "signature")
    key ← defaulted optional_text none (field_value fs "sourcePublicKey" "source_public_key")
    ok (record {
      event_id = event_id;
      event_created = created;
      event_type = event_type;
      event_schema_version = version;
      source_service_id = source;
      correlation_id = correlation;
      signature = signature;
      source_public_key = key;
    })

  encryption_of : Json → Result EncryptionMetadata
  unfolding fields_of field_value text text_list
  encryption_of v = do
    fs ← fields_of v
    algorithm ← required text (field_value fs "algorithm" "algorithm")
    recipients ← required text_list (field_value fs "recipients" "recipients")
    ok (record { algorithm = algorithm; recipients = recipients })

  envelope_of : Fresh → Json → Result EventEnvelope
  unfolding details_of encryption_of
  envelope_of fresh v = do
    fs ← fields_of v
    details ← required (details_of fresh) (field_value fs "eventDetails" "event_details")
    encryption ← required encryption_of (field_value fs "encryption" "encryption")
    payload ← required text (field_value fs "eventPayload" "event_payload")
    ok (record { event_details = details; encryption = encryption; event_payload = payload })

  event_of : Fresh → Json → Result Event
  unfolding envelope_of
  event_of fresh v = do
    fs ← fields_of v
    envelope ← required (envelope_of fresh) (field_value fs "event" "event")
    ok (record { event = envelope })

  -- `model_validate_json(data)`
  unfoldable pub from_wire : Fresh → Bytes → Result Event
  unfolding event_of
  from_wire fresh bytes = do v ← from_option (P.parse_json bytes); event_of fresh v
