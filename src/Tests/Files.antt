-- ===== src/Tests/Files.antt =====
-- The properties of the file storage adapter and of the pending replies at concrete inputs.
use jet_core_service_bus.Prelude.{◌≡◌, ◌↔◌, refl, [], ◌∷◌, arith, true, false}
use jet_core_service_bus.Python.Exception.{ok}
use jet_core_service_bus.Python.PurePath.{PosixPath, parts, split, is_absolute, parents}
use jet_core_service_bus.Jetcore.Bus.{Bus}
use jet_core_service_bus.FileStorage.FileSystem.{FileSystem}
use jet_core_service_bus.FileStorage.Paths.{resolve_within}
use jet_core_service_bus.FileStorage.Paths.Containment.{IsContained, resolve_within_iff}
use jet_core_service_bus.FileStorage.Payloads.{decode_write_requested}
use jet_core_service_bus.FileStorage.Payloads.Decoding.{
  write_requested, decode_write_requested-dumps,
}
use jet_core_service_bus.FileStorage.RecentWrites.{was_recent, default_ttl}
use jet_core_service_bus.FileStorage.RecentWrites.Window.{
  marks, asks, time, run, alive, last_mark, was_recent-run,
}
use jet_core_service_bus.Tests.Libraries.{test_json, test_json-RoundTrips}

-- How far the handling of the one command is
pub data Stage : Type 0 where
  pending : Stage
  written : Stage
  published : Stage
  rejected : Stage
  completed : Stage
  retried : Stage

abbrev pub acked : Stage → Stage
acked Stage.pending = Stage.rejected
acked Stage.published = Stage.completed
acked s = s

-- Paths are their own resolution, but `..` leads out to the root of all.
abbrev pub resolved : PosixPath → PosixPath
resolved (a ∷ b ∷ []) = a ∷ b ∷ []
resolved (a ∷ []) = a ∷ []
resolved _ = []

abbrev pub test_files : FileSystem Stage
test_files = record {
  resolve = λ p s. (ok (resolved p), s);
  exists = λ p s. (ok false, s);
  is_file = λ p s. (ok true, s);
  is_dir = λ p s. (ok false, s);
  st_size = λ p s. (ok 7, s);
  mkdir = λ p s. (ok tt, s);
  write_bytes = λ p content s. (ok tt, Stage.written);
  read_bytes = λ p s. (ok [], s);
  unlink = λ p s. (ok tt, s);
  iterdir = λ p s. (ok [], s);
  sleep = λ ms s. (ok tt, s);
  now_iso = λ s. ("now", s);
  monotonic = λ s. (0, s);
}

abbrev pub test_bus : Bus Stage
test_bus = record {
  publish = λ p s. (ok "id", Stage.published);
  subscribe = λ subject name s. (ok "d", s);
  fetch = λ name batch timeout s. (ok [], s);
  ack = λ e s. (ok tt, acked s);
  nak = λ e s. (ok tt, Stage.retried);
}

abbrev pub root : PosixPath
root = "srv" ∷ []

inside : resolve_within test_files root "a" Stage.pending ≡ (ok ("srv" ∷ "a" ∷ []), Stage.pending)
unfolding resolve_within parts is_absolute split parents
inside = refl

resolve_within_iff_example :
    (resolve_within test_files root "a" Stage.pending ≡ (ok ("srv" ∷ "a" ∷ []), Stage.pending))
    ↔ IsContained test_files root "a" Stage.pending ("srv" ∷ "a" ∷ []) Stage.pending
resolve_within_iff_example =
    resolve_within_iff test_files root "a" Stage.pending ("srv" ∷ "a" ∷ []) Stage.pending

was_recent-run_example :
    (was_recent root 6000 (run default_ttl (asks root 1200 ∷ marks root 1000 ∷ []))).0
    ≡ alive default_ttl 6000 (last_mark root (asks root 1200 ∷ marks root 1000 ∷ []))
unfolding time
was_recent-run_example =
    was_recent-run default_ttl 6000 root (asks root 1200 ∷ marks root 1000 ∷ [])
      (omega arith, (omega arith, tt))

decode_write_requested-dumps_example :
    decode_write_requested test_json (test_json.dumps (write_requested "a" (1 ∷ 2 ∷ [])))
    ≡ ok (record { path = "a"; content = 1 ∷ 2 ∷ [] })
decode_write_requested-dumps_example =
    decode_write_requested-dumps test_json test_json-RoundTrips "a" (1 ∷ 2 ∷ []) refl
      (omega arith, (omega arith, tt))
