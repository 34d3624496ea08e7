-- ===== src/Prelude/Int.antt =====
-- Signed integers over the native numbers, under the library's names: a Python `int`.
use Prim.Native.Nat.{ℕ}
use mathlib.Core.Bool.{Bool, true}
use jet_core_service_bus.Prelude.Tests.{ltb}

-- `negsuc n` is -(n + 1).
pub data ℤ : Type 0 where
  pos : ℕ → ℤ
  negsuc : ℕ → ℤ

-- a < n, at a natural number n
abbrev pub ltb_ℤ : ℤ → ℕ → Bool
ltb_ℤ (pos a) n = ltb a n
ltb_ℤ (negsuc a) n = true
