-- ===== src/FileStorage/RecentWrites.antt =====
-- The files that the adapter wrote a short time ago (file_storage_adapter/recent_writes.py). Times
-- are in milliseconds; a time below `now - ttl` is one whose sum with `ttl` is below `now`.
pub mod Window
use jet_core_service_bus.Prelude.{
  ℕ, Bool, true, false, List, [], ◌∷◌, ◌+◌, Option, some, none, if◌then◌else◌, ltb,
}
use jet_core_service_bus.Python.Dict
use jet_core_service_bus.Python.Dict.{Dict}
use jet_core_service_bus.Python.Equality.{texts_eq_inst}
use jet_core_service_bus.Python.PurePath.{PosixPath}

pub record RecentWrites : Type 0 where
  pub ttl : ℕ
  pub marked_at : Dict PosixPath ℕ

abbrev pub default_ttl : ℕ
default_ttl = 5000

-- `expired`: the keys to delete
pub expired : ℕ → ℕ → Dict PosixPath ℕ → List PosixPath
expired ttl now [] = []
expired ttl now ((p, at) ∷ d) =
    let rest = expired ttl now d in if ltb (at + ttl) now then p ∷ rest else rest

pub erase_all : List PosixPath → Dict PosixPath ℕ → Dict PosixPath ℕ
erase_all [] d = d
erase_all (p ∷ ps) d = erase_all ps (Dict.erase p d)

abbrev pub is_some : Option ℕ → Bool
is_some none = false
is_some (some n) = true

-- `mark`, at the time `now`
unfoldable pub mark : PosixPath → ℕ → RecentWrites → RecentWrites
mark p now r = record r { marked_at = Dict.insert p now r.marked_at }

-- `_prune`
unfoldable pub prune : ℕ → RecentWrites → RecentWrites
unfolding expired erase_all
prune now r = record r { marked_at = erase_all (expired r.ttl now r.marked_at) r.marked_at }

-- `was_recent`, with the pruned table
unfoldable pub was_recent : PosixPath → ℕ → RecentWrites → Bool × RecentWrites
unfolding prune
was_recent p now r = let r' = prune now r in (is_some (Dict.lookup p r'.marked_at), r')
