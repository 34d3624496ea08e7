-- ===== src/Jetcore/Envelope/RoundTrip.antt =====
-- A message is read back as it was written.
use jet_core_service_bus.Prelude.{String, ◌≡◌, refl, Option, none, some, List, [], ◌∷◌}
use jet_core_service_bus.Python.Exception.{ok}
use jet_core_service_bus.Python.Json.{find_field}
use jet_core_service_bus.Jetcore.Envelope.{
  Event, Pydantic, IsFaithful, Fresh, to_wire, from_wire, dump_texts, texts, optional_text,
  dump_optional,
}

texts-dump_texts : (ss : List String) → texts (dump_texts ss) ≡ ok ss
unfolding texts dump_texts
texts-dump_texts [] = refl
texts-dump_texts (s ∷ ss) = rw (texts-dump_texts ss)

optional_text-dump_optional : (o : Option String) → optional_text (dump_optional o) ≡ ok o
unfolding optional_text
optional_text-dump_optional none = refl
optional_text-dump_optional (some s) = refl

-- For faithful pydantic, the bytes of an event are read back as that event, whatever fresh values
-- are at hand.
pub from_wire-to_wire :
    (P : Pydantic) (fresh : Fresh) (e : Event)
    → IsFaithful P
    → from_wire P fresh (to_wire P e) ≡ ok e
unfolding from_wire to_wire find_field
from_wire-to_wire P fresh e h = rw (
  h.parse-dump_json,
  h.parse-dump_datetime,
  optional_text-dump_optional e.event.event_details.correlation_id,
  optional_text-dump_optional e.event.event_details.signature,
  optional_text-dump_optional e.event.event_details.source_public_key,
  texts-dump_texts e.event.encryption.recipients,
)
