-- ===== src/FileStorage/Paths.antt =====
-- The boundary of the watched directory (file_storage_adapter/paths.py).
pub mod Containment
use jet_core_service_bus.Prelude.{String, ◌++◌, if◌then◌else◌}
use jet_core_service_bus.Python.Exception.{Exception}
use jet_core_service_bus.Python.Exec.{Exec, pure, raise, ◌>>=◌}
use jet_core_service_bus.Python.PurePath.{PosixPath, parts, is_absolute, is_within}
use jet_core_service_bus.FileStorage.FileSystem.{FileSystem}

module _ {S : Type 0} (F : FileSystem S) where
  -- The part that follows the test for an absolute path
  unfoldable pub resolve_relative : PosixPath → String → Exec S PosixPath
  resolve_relative root relative = do
    root_resolved ← F.resolve root
    candidate ← F.resolve (root_resolved ++ parts relative)
    (if is_within root_resolved candidate
        then pure candidate
        else raise Exception.path_traversal_error)

  unfoldable pub resolve_within : PosixPath → String → Exec S PosixPath
  unfolding resolve_relative
  resolve_within root relative =
      if is_absolute relative
      then raise Exception.path_traversal_error
      else resolve_relative root relative
