-- ===== src/FileStorage/FileSystem.antt =====
-- The part of `pathlib`, `os` and `aiofiles` that the file storage adapter calls, and the clocks. The
-- state is that of the world; a call returns its result or raises, `OSError` for the most part.
use jet_core_service_bus.Prelude.{String, ℕ, Bool, List}
use jet_core_service_bus.Python.Exec.{Exec}
use jet_core_service_bus.Python.Json.{Bytes}
use jet_core_service_bus.Python.PurePath.{PosixPath}

pub record FileSystem (S : Type 0) : Type 0 where
  -- `Path.resolve()`: the path without `..` and symbolic links. A NUL byte is a `ValueError`.
  pub resolve : PosixPath → Exec S PosixPath
  pub exists : PosixPath → Exec S Bool
  pub is_file : PosixPath → Exec S Bool
  pub is_dir : PosixPath → Exec S Bool
  pub st_size : PosixPath → Exec S ℕ
  -- `path.mkdir(parents=True, exist_ok=True)`
  pub mkdir : PosixPath → Exec S (Unit {0})
  -- `aiofiles.open(path, "wb")` and `write`; `open(path, "rb")` and `read`
  pub write_bytes : PosixPath → Bytes → Exec S (Unit {0})
  pub read_bytes : PosixPath → Exec S Bytes
  pub unlink : PosixPath → Exec S (Unit {0})
  -- The names of the children, in no order
  pub iterdir : PosixPath → Exec S (List String)
  pub sleep : ℕ → Exec S (Unit {0})
  -- `_iso(utc_now())`
  pub now_iso : S → String × S
  -- `time.monotonic()`, in milliseconds
  pub monotonic : S → ℕ × S
