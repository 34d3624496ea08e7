-- ===== src/Tests/Reading.antt =====
-- The outcome of the read command at a concrete input.
use jet_core_service_bus.Prelude.{◌≡◌, refl, none, some, [], ◌∷◌, String, Bool, true, false, Option}
use jet_core_service_bus.Python.Exec.Hoare.{Ends}
use jet_core_service_bus.Python.Exception.{Exception, ok}
use jet_core_service_bus.Python.Json.{Bytes, Json, Fields}
use jet_core_service_bus.Python.PurePath.{PosixPath}
use jet_core_service_bus.Jetcore.Bus.{Bus}
use jet_core_service_bus.Jetcore.BusClient.{ReceivedEvent}
use jet_core_service_bus.Jetcore.BusClient.Sealing.{Publication}
use jet_core_service_bus.FileStorage.FileSystem.{FileSystem}
use jet_core_service_bus.FileStorage.Commands.Read
use jet_core_service_bus.FileStorage.Commands.Read.Protocol.{ReadProtocol, ReadSettled, ReadOpen}
use jet_core_service_bus.FileStorage.Commands.Read.Settlement.{handle-ReadSettled}
use jet_core_service_bus.Tests.Codec.{dump}
use jet_core_service_bus.Tests.Libraries.{test_json}
use jet_core_service_bus.Tests.Bus.{received}
use jet_core_service_bus.Tests.Files.{root, resolved}

-- How far the handling of one read command is
data Reading : Type 0 where
  arrived : Reading
  looked : PosixPath → Bool → Reading
  has_read : PosixPath → Bytes → Reading
  failed : PosixPath → Exception → Reading
  stamped : PosixPath → Option Bytes → String → Reading
  published : PosixPath → Option Bytes → String → Publication → Reading
  completed : PosixPath → Option Bytes → String → Publication → Reading
  rejected : Reading
  retried : PosixPath → Exception → Reading

abbrev stamped_reading : Reading → Reading
stamped_reading (looked p false) = stamped p none "now"
stamped_reading (has_read p content) = stamped p (some content) "now"
stamped_reading s = s

abbrev published_reading : Publication → Reading → Reading
published_reading sent (stamped p told now) = published p told now sent
published_reading sent s = s

abbrev acked_reading : Reading → Reading
acked_reading (published p told now sent) = completed p told now sent
acked_reading _ = rejected

abbrev given_back : Reading → Reading
given_back (failed p e) = retried p e
given_back s = s

abbrev disk : FileSystem Reading
disk = record {
  resolve = λ p s. (ok (resolved p), s);
  exists = λ p s. (ok true, s);
  is_file = λ p s. (ok true, looked p true);
  is_dir = λ p s. (ok false, s);
  st_size = λ p s. (ok 1, s);
  mkdir = λ p s. (ok tt, s);
  write_bytes = λ p content s. (ok tt, s);
  read_bytes = λ p s. (ok (7 ∷ []), has_read p (7 ∷ []));
  unlink = λ p s. (ok tt, s);
  iterdir = λ p s. (ok [], s);
  sleep = λ ms s. (ok tt, s);
  now_iso = λ s. ("now", stamped_reading s);
  monotonic = λ s. (0, s);
}

abbrev bus : Bus Reading
bus = record {
  publish = λ p s. (ok "id", published_reading p s);
  subscribe = λ subject name s. (ok "d", s);
  fetch = λ name batch timeout s. (ok [], s);
  ack = λ e s. (ok tt, acked_reading s);
  nak = λ e s. (ok tt, given_back s);
}

abbrev command : ReceivedEvent
command = record received {
  payload = dump (Json.obj (Fields.field "path" (Json.str "a") Fields.end));
}

test_protocol : ReadProtocol disk bus root root command
test_protocol = record {
  Received = λ s. s ≡ arrived;
  Looked = λ p there s. s ≡ looked p there;
  HasRead = λ p content s. s ≡ has_read p content;
  Failed = λ p e s. s ≡ failed p e;
  Stamped = λ p told now s. s ≡ stamped p told now;
  Published = λ p told now sent s. s ≡ published p told now sent;
  Completed = λ p told now sent s. s ≡ completed p told now sent;
  Rejected = λ s. s ≡ rejected;
  Retried = λ p e s. s ≡ retried p e;
  rooted = λ s h. refl;
  resolve = λ p s h. h;
  is_file = λ p within s h. refl;
  read_bytes = λ p within s h. refl;
  now_missing = λ p s h. rw h refl;
  now_read = λ p content s h. rw h refl;
  publish = λ p told now sent s h. rw h refl;
  complete = λ p told now sent s h. rw h refl;
  reject = λ s h. rw h refl;
  retry = λ p e os s h. rw h refl;
}

handle-ReadSettled_example :
    Ends
      (λ _. ReadSettled test_json disk bus root root command test_protocol arrived)
      (λ _. ReadOpen test_json disk bus root root command test_protocol arrived)
      (Read.handle test_json disk bus root command arrived)
unfolding test_protocol
handle-ReadSettled_example =
    handle-ReadSettled test_json disk bus root root command test_protocol arrived refl
