-- ===== src/Tests/Handlers.antt =====
-- The properties of the other handlers, of the watch and of the pending replies at concrete inputs.
use jet_core_service_bus.Prelude.{
  ℕ, zero, suc, ℤ, ◌≡◌, ◌⊎◌, inl, inr, refl, ap, some, none, Option, List, [], ◌∷◌, All, arith,
  true, false, String, get_elem?,
}
use jet_core_service_bus.Python.Exception.{is_value_error, Exception, ok, err}
use jet_core_service_bus.Python.Exec.Hoare.{Ends}
use jet_core_service_bus.Python.Json.{Bytes, Json}
use jet_core_service_bus.Python.PurePath.{PosixPath, Within}
use jet_core_service_bus.Jetcore.Bus.{Bus}
use jet_core_service_bus.Jetcore.BusClient.{ReceivedEvent, details}
use jet_core_service_bus.Jetcore.BusClient.Sealing.{make_event}
use jet_core_service_bus.FileStorage.FileSystem.{FileSystem}
use jet_core_service_bus.FileStorage.Payloads.{read_write_requested, decode_write_requested}
use jet_core_service_bus.FileStorage.Payloads.Decoding.{
  write_requested, IsJson, decode_write_requested-err,
}
use jet_core_service_bus.FileStorage.Commands.Delete.Containment.{Allows, handle-Keeps}
use jet_core_service_bus.FileStorage.Commands.Escape.{handle-unicode}
use jet_core_service_bus.FileStorage.Commands.Read
use jet_core_service_bus.FileStorage.Commands.Delete
use jet_core_service_bus.FileStorage.Commands.Listing
use jet_core_service_bus.FileStorage.CreateWatch.{wait_until_settled}
use jet_core_service_bus.FileStorage.CreateWatch.Settling.{wait_until_settled-Settled, Settled}
use jet_core_service_bus.FileStorage.CreateWatch.Termination.{wait_until_settled-Returns}
use jet_core_service_bus.RestApi.PendingReplies.{Future, register, resolve}
use jet_core_service_bus.RestApi.PendingReplies.Delivery.{act, Action, run, ids, run-delivered}
use jet_core_service_bus.Python.Dict.{lookup, insert}
use jet_core_service_bus.Tests.Codec.{dump, parse}
use jet_core_service_bus.Tests.Libraries.{test_json, loaded}
use jet_core_service_bus.Tests.World.{sender, publication}
use jet_core_service_bus.Tests.Bus.{received, fresh_values}
use jet_core_service_bus.Tests.Files.{Stage, test_files, test_bus, root}

-- A world that keeps the files that were removed
abbrev removals : FileSystem (List PosixPath)
removals = record {
  resolve = λ p s. (ok p, s);
  exists = λ p s. (ok true, s);
  is_file = λ p s. (ok true, s);
  is_dir = λ p s. (ok false, s);
  st_size = λ p s. (ok 7, s);
  mkdir = λ p s. (ok tt, s);
  write_bytes = λ p content s. (ok tt, s);
  read_bytes = λ p s. (ok [], s);
  unlink = λ p s. (ok tt, p ∷ s);
  iterdir = λ p s. (ok [], s);
  sleep = λ ms s. (ok tt, s);
  now_iso = λ s. ("now", s);
  monotonic = λ s. (0, s);
}

abbrev quiet_bus : Bus (List PosixPath)
quiet_bus = record {
  publish = λ p s. (ok "id", s);
  subscribe = λ subject name s. (ok "d", s);
  fetch = λ name batch timeout s. (ok [], s);
  ack = λ e s. (ok tt, s);
  nak = λ e s. (ok tt, s);
}

abbrev command : ReceivedEvent
command = record received { payload = dump (write_requested "a" []) }

removals-Allows : Allows removals quiet_bus root root command (All (Within root))
removals-Allows = record {
  rooted = λ s h. refl;
  resolve = λ p s h. h;
  is_file = λ p s h. h;
  unlink = λ p within s h. (within, h);
  now_iso = λ s h. h;
  publish = λ p s h. h;
  ack = λ s h. h;
  nak = λ s h. h;
}

handle-Keeps_example :
    All (Within root) (Delete.handle test_json removals quiet_bus root command []).1
handle-Keeps_example =
    handle-Keeps test_json removals quiet_bus root root command (All (Within root)) removals-Allows
      [] tt

-- Byte 0 alone is no text in UTF-8.
abbrev foreign : ReceivedEvent
foreign = record received { payload = 0 ∷ [] }

not_utf_8 : test_json.loads foreign.payload ≡ err Exception.unicode_decode_error
unfolding parse
not_utf_8 = refl

handle-unicode_example :
    (Read.handle test_json test_files test_bus root foreign Stage.pending
      ≡ (err Exception.unicode_decode_error, Stage.pending))
    × (Delete.handle test_json test_files test_bus root foreign Stage.pending
        ≡ (err Exception.unicode_decode_error, Stage.pending))
    × (Listing.handle test_json test_files test_bus root foreign Stage.pending
        ≡ (err Exception.unicode_decode_error, Stage.pending))
handle-unicode_example =
    handle-unicode test_json test_files test_bus root foreign Stage.pending not_utf_8

loads-raises :
    (raw : Bytes) (o : Option Json) (e : Exception)
    → loaded raw o ≡ err e
    → (e ≡ Exception.json_decode_error) ⊎ (e ≡ Exception.unicode_decode_error)
loads-raises raw (some v) e h = absurd (ground arith)
loads-raises [] none e h = inl (ground arith)
loads-raises (zero ∷ l) none e h = inr (ground arith)
loads-raises (suc n ∷ l) none e h = inl (ground arith)

test_json-IsJson : IsJson test_json
test_json-IsJson = record { raises = λ raw e h. loads-raises raw (parse raw) e h }

refused : decode_write_requested test_json (0 ∷ []) ≡ err Exception.malformed_payload_error
unfolding decode_write_requested read_write_requested is_value_error
refused = rw not_utf_8 refl

abbrev raised : Exception
raised = Exception.malformed_payload_error

decode_write_requested-err_example : raised ≡ Exception.malformed_payload_error
decode_write_requested-err_example =
    decode_write_requested-err test_json test_json-IsJson (0 ∷ []) raised refused

wait_until_settled-Returns_example :
    Ends
      (λ o (s : Stage). o ≡ some (ℤ.pos 7))
      (λ _ _. ⊥)
      (wait_until_settled test_files root 3 4 Stage.pending)
wait_until_settled-Returns_example =
    wait_until_settled-Returns test_files root 3 (omega arith) 7 (λ _. Unit) (λ ms s h. tt)
      (λ s h. (refl, tt)) Stage.pending tt

-- A file whose sizes are 5, 7, 7, …; the world counts the readings.
abbrev size_at : ℕ → ℕ
size_at zero = 5
size_at (suc n) = 7

abbrev growing : FileSystem ℕ
growing = record {
  resolve = λ p s. (ok p, s);
  exists = λ p s. (ok true, s);
  is_file = λ p s. (ok true, s);
  is_dir = λ p s. (ok false, s);
  st_size = λ p s. (ok (size_at s), suc s);
  mkdir = λ p s. (ok tt, s);
  write_bytes = λ p content s. (ok tt, s);
  read_bytes = λ p s. (ok [], s);
  unlink = λ p s. (ok tt, s);
  iterdir = λ p s. (ok [], s);
  sleep = λ ms s. (ok tt, s);
  now_iso = λ s. ("now", s);
  monotonic = λ s. (0, s);
}

abbrev history : ℕ → List ℕ
history zero = []
history (suc n) = size_at n ∷ history n

wait_until_settled-Settled_example :
    Ends
      (Settled growing root 3
        (omega arith)
        (λ sizes n. sizes ≡ history n)
        (λ ms sizes s h. h)
        (λ sizes s h. ap (◌∷◌ (size_at s)) h))
      (λ _ _. Unit)
      (wait_until_settled growing root 3 9 0)
wait_until_settled-Settled_example =
    wait_until_settled-Settled growing root 3 (omega arith) (λ sizes n. sizes ≡ history n)
      (λ ms sizes s h. h) (λ sizes s h. ap (◌∷◌ (size_at s)) h) 9 0 refl

abbrev reply : ReceivedEvent
reply = record received {
  event =
      make_event sender (record publication { correlation_id = some "t" }) fresh_values (104 ∷ [])
        [] (1 ∷ []);
}

abbrev actions : List Action
actions = Action.resolves reply ∷ Action.registers "u" ∷ Action.registers "t" ∷ []

delivered : get_elem? (run actions).futures 0 ≡ some (Future.resolved reply)
unfolding make_event run act register resolve lookup insert
delivered = refl

run-delivered_example :
    (id : String) × (get_elem? (ids actions) 0 ≡ some id)
    × ((details reply).correlation_id ≡ some id)
run-delivered_example = run-delivered actions 0 reply delivered
