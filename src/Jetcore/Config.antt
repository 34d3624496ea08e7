-- ===== src/Jetcore/Config.antt =====
-- The settings of an adapter (libs/jetcore/jetcore/config.py), and the list of subjects in them. The value
-- that pydantic hands over is a text or what was given in Python, as a value of JSON; `loads` is
-- `json.loads` on a text.
pub mod Subjects
use Prim.Native.Char.{code}
use jet_core_service_bus.Prelude.{ℕ, String, Bool, true, false, List, [], ◌∷◌, ◌==◌, if◌then◌else◌}
use jet_core_service_bus.Python.Exception.{Result, ok, err}
use jet_core_service_bus.Python.Json.{Json, Items}
use jet_core_service_bus.Python.PurePath.{split}
use jet_core_service_bus.Python.Text.{strip, is_empty}

-- `AdapterSettings`; `nats_creds_path` is a path that pydantic has found to be a file.
pub record AdapterSettings : Type 0 where
  pub service_id : String
  pub nats_url : String
  pub nats_creds_path : String
  pub subjects : List String
  pub log_level : String

-- The settings with their defaults, for the two that have none
abbrev pub default_settings : String → String → AdapterSettings
default_settings service_id nats_creds_path = record {
  service_id = service_id;
  nats_url = "nats://nats:4222";
  nats_creds_path = nats_creds_path;
  subjects = [];
  log_level = "INFO";
}

-- `s.startswith('[')`
abbrev pub starts_bracket : String → Bool
starts_bracket String.[] = false
starts_bracket (String.◌∷◌ c s) = code c == b'['

-- `[s.strip() for s in … if s.strip()]`
unfoldable pub strip_all : List String → List String
strip_all [] = []
strip_all (s ∷ ss) = let rest = strip_all ss in if is_empty (strip s) then rest else strip s ∷ rest

unfoldable pub texts : List String → Items
texts [] = Items.nil
texts (s ∷ ss) = Items.cons (Json.str s) (texts ss)

module _ (loads : String → Result Json) where
  unfoldable pub parse_stripped : String → Result Json
  parse_stripped s =
      if is_empty s
      then ok (Json.arr Items.nil)
      else if starts_bracket s
      then loads s
      else ok (Json.arr (texts (strip_all (split b',' s))))

  unfoldable pub parse_subjects : Json → Result Json
  unfolding parse_stripped
  parse_subjects (Json.str s) = parse_stripped (strip s)
  parse_subjects v = ok v
