-- ===== src/Tests/Commands.antt =====
-- The outcome of the write command at a concrete input.
use jet_core_service_bus.Prelude.{◌≡◌, refl, none, [], ◌∷◌, false, Bool, String, true}
use jet_core_service_bus.Python.Exec.Hoare.{Ends}
use jet_core_service_bus.Jetcore.BusClient.{ReceivedEvent}
use jet_core_service_bus.FileStorage.Payloads.Decoding.{write_requested}
use jet_core_service_bus.FileStorage.Commands.Write.{Shared}
use jet_core_service_bus.FileStorage.Commands.Write.Protocol.{Protocol}
use jet_core_service_bus.FileStorage.Commands.Write.Settlement.{handle-settles}
use jet_core_service_bus.FileStorage.Commands.Write.Outcome.{Finished, Open}
use jet_core_service_bus.FileStorage.FileSystem.{FileSystem}
use jet_core_service_bus.Jetcore.Bus.{Bus}
use jet_core_service_bus.Jetcore.BusClient.Sealing.{Publication}
use jet_core_service_bus.Python.Exception.{Exception, ok}
use jet_core_service_bus.Python.Json.{Bytes}
use jet_core_service_bus.Python.PurePath.{PosixPath}
use jet_core_service_bus.FileStorage.Commands.Write
use jet_core_service_bus.Tests.Codec.{dump}
use jet_core_service_bus.Tests.Libraries.{test_json}
use jet_core_service_bus.Tests.Bus.{received}
use jet_core_service_bus.Tests.Files.{root, resolved}

-- How far the handling of one write command is
data Writing : Type 0 where
  arrived : Writing
  looked : PosixPath → Bool → Writing
  made : PosixPath → Bool → Writing
  written : PosixPath → Bool → Bytes → Writing
  stamped : PosixPath → Bool → Bytes → String → Writing
  published : PosixPath → Bool → Bytes → String → Publication → Writing
  completed : PosixPath → Bool → Bytes → String → Publication → Writing
  failed : PosixPath → Exception → Writing
  rejected : Writing
  retried : PosixPath → Exception → Writing

abbrev made_directory : Writing → Writing
made_directory (looked p existed) = made p existed
made_directory s = s

abbrev written_content : Bytes → Writing → Writing
written_content content (made p existed) = written p existed content
written_content content s = s

abbrev stamped_report : Writing → Writing
stamped_report (written p existed content) = stamped p existed content "now"
stamped_report s = s

abbrev published_report : Publication → Writing → Writing
published_report sent (stamped p existed content now) = published p existed content now sent
published_report sent s = s

abbrev acked_command : Writing → Writing
acked_command (published p existed content now sent) = completed p existed content now sent
acked_command _ = rejected

abbrev given_back : Writing → Writing
given_back (failed p e) = retried p e
given_back s = s

abbrev disk : FileSystem Writing
disk = record {
  resolve = λ p s. (ok (resolved p), s);
  exists = λ p s. (ok false, looked p false);
  is_file = λ p s. (ok true, s);
  is_dir = λ p s. (ok false, s);
  st_size = λ p s. (ok 7, s);
  mkdir = λ p s. (ok tt, made_directory s);
  write_bytes = λ p content s. (ok tt, written_content content s);
  read_bytes = λ p s. (ok [], s);
  unlink = λ p s. (ok tt, s);
  iterdir = λ p s. (ok [], s);
  sleep = λ ms s. (ok tt, s);
  now_iso = λ s. ("now", stamped_report s);
  monotonic = λ s. (0, s);
}

abbrev bus : Bus Writing
bus = record {
  publish = λ p s. (ok "id", published_report p s);
  subscribe = λ subject name s. (ok "d", s);
  fetch = λ name batch timeout s. (ok [], s);
  ack = λ e s. (ok tt, acked_command s);
  nak = λ e s. (ok tt, given_back s);
}

abbrev command : ReceivedEvent
command = record received { payload = dump (write_requested "a" (1 ∷ 2 ∷ [])) }

test_protocol : Protocol disk bus root root command
test_protocol = record {
  Received = λ s. s ≡ arrived;
  Looked = λ p existed s. s ≡ looked p existed;
  Made = λ p existed s. s ≡ made p existed;
  Written = λ p existed content s. s ≡ written p existed content;
  Stamped = λ p existed content now s. s ≡ stamped p existed content now;
  Published = λ p existed content now sent s. s ≡ published p existed content now sent;
  Completed = λ p existed content now sent s. s ≡ completed p existed content now sent;
  Failed = λ p e s. s ≡ failed p e;
  Rejected = λ s. s ≡ rejected;
  Retried = λ p e s. s ≡ retried p e;
  rooted = λ s h. refl;
  resolve = λ p s h. h;
  exists = λ p within s h. refl;
  mkdir = λ p existed within s h. rw h refl;
  write_bytes = λ p existed content within s h. rw h refl;
  monotonic = λ p existed content s h. h;
  now_iso = λ p existed content s h. rw h refl;
  publish = λ p existed content now sent s h. rw h refl;
  complete = λ p existed content now sent s h. rw h refl;
  reject = λ s h. rw h refl;
  retry = λ p e os s h. rw h refl;
}

abbrev start : Shared Writing
start = record { recent_writes = none; state = arrived }

handle-settles_example :
    Ends
      (λ _. Finished test_json disk bus root root command test_protocol start)
      (λ _. Open test_json disk bus root root command test_protocol start)
      (Write.handle test_json disk bus root command start)
unfolding test_protocol
handle-settles_example =
    handle-settles test_json disk bus root root command test_protocol start refl
