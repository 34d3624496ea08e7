-- ===== src/Python/Secrets.antt =====
-- The `secrets` module.
use Prim.Native.Char.{code}
use jet_core_service_bus.Prelude.{
  String, ◌≡◌, refl, Bool, true, false, ◌&&◌, ltb, if◌then◌else◌, str_eq,
}
use jet_core_service_bus.Python.Exception.{Exception, Result, ok, err}

-- `s.isascii()`
unfoldable pub is_ascii : String → Bool
is_ascii String.[] = true
is_ascii (String.◌∷◌ c s) = ltb (code c) 128 && is_ascii s

-- `secrets.compare_digest(a, b)` on two texts: a `TypeError` unless both are ASCII.
unfoldable pub compare_digest : String → String → Result Bool
compare_digest a b = if is_ascii a && is_ascii b then ok (str_eq a b) else err Exception.type_error

pub compare_digest-plain :
    (a b : String) → (is_ascii a && is_ascii b) ≡ true → compare_digest a b ≡ ok (str_eq a b)
unfolding compare_digest
compare_digest-plain a b h = rw h refl

pub compare_digest-foreign :
    (a b : String)
    → (is_ascii a && is_ascii b) ≡ false
    → compare_digest a b ≡ err Exception.type_error
unfolding compare_digest
compare_digest-foreign a b h = rw h refl
