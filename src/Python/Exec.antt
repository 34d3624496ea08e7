-- ===== src/Python/Exec.antt =====
-- A coroutine or a method that changes the state `S` and may raise. What was done before a raise
-- stays done, so the state comes back beside the exception too.
pub mod Keeps
pub mod Hoare
use jet_core_service_bus.Prelude.{Bool, true, false, if◌then◌else◌}
use jet_core_service_bus.Python.Exception.{Exception, Result, ok, err}

abbrev pub Exec {ℓ} : Type ℓ → Type ℓ → Type ℓ
Exec S A = S → Result A × S

module _ {ℓ} {S A : Type ℓ} where
  abbrev pub pure : A → Exec S A
  pure a s = (ok a, s)

  abbrev pub raise : Exception → Exec S A
  raise e s = (err e, s)

  abbrev pub lift : Result A → Exec S A
  lift r s = (r, s)

module _ {ℓ} {S A B : Type ℓ} where
  abbrev go_on : (A → Exec S B) → Result A → Exec S B
  go_on next (ok a) s = next a s
  go_on next (err e) s = (err e, s)

  infixl 5 ◌>>=◌ ◌>>◌
  abbrev pub ◌>>=◌ : Exec S A → (A → Exec S B) → Exec S B
  ◌>>=◌ first next before = let (r, after) = first before in go_on next r after

  abbrev pub ◌>>◌ : Exec S A → Exec S B → Exec S B
  first >> second = first >>= λ _. second

module _ {ℓ} {S A : Type ℓ} where
  abbrev handle : (Exception → Bool) → Result A → (Exception → Exec S A) → Exec S A
  handle caught (ok a) f s = (ok a, s)
  handle caught (err e) f s = if caught e then f e s else (err e, s)

  -- `try: m except E: f`, where `caught` tells the exceptions that are of class `E`.
  abbrev pub except : Exec S A → (Exception → Bool) → (Exception → Exec S A) → Exec S A
  except m caught f s = let (r, s') = m s in handle caught r f s'

module _ {ℓ} {S A B : Type ℓ} where
  -- `try: a = m except E: return f` followed by `k a`: what `k` raises is not caught.
  abbrev chosen : (Exception → Bool) → Result A → Exec S B → (A → Exec S B) → Exec S B
  chosen caught (ok a) f k s = k a s
  chosen caught (err e) f k s = if caught e then f s else (err e, s)

  abbrev pub except_return : Exec S A → (Exception → Bool) → Exec S B → (A → Exec S B) → Exec S B
  except_return m caught f k s = let (r, s') = m s in chosen caught r f k s'

abbrev after_all {ℓ} : {A B : Type ℓ} → Result A → Result B → Result A
after_all r (ok b) = r
after_all r (err e) = err e

module _ {ℓ} {S A B : Type ℓ} where
  -- `try: m finally: f`: an exception of `f` takes the place of what `m` gave.
  abbrev pub finally : Exec S A → Exec S B → Exec S A
  finally m f s = let (r, s') = m s in let (q, s'') = f s' in (after_all r q, s'')

-- A call that cannot raise
abbrev pub always {ℓ} : {S A : Type ℓ} → (S → A × S) → Exec S A
always f s = let (a, s') = f s in (ok a, s')

-- What a `finally` sees: every exception. A call that never returns reaches none.
abbrev pub any_raise : Exception → Bool
any_raise Exception.blocked = false
any_raise _ = true

-- `except Exception`
abbrev pub any_exception : Exception → Bool
any_exception Exception.blocked = false
any_exception Exception.cancelled_error = false
any_exception _ = true
