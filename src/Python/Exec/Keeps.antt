-- ===== src/Python/Exec/Keeps.antt =====
-- A property of the state that a computation leaves true, composed the way computations are.
use jet_core_service_bus.Prelude.{Bool, inl, inr, Bool-cases}
use jet_core_service_bus.Python.Exception.{Exception, Result, ok, err}
use jet_core_service_bus.Python.Exec.{Exec, ◌>>=◌, except_return}

abbrev pub Keeps {ℓ} : {S A : Type ℓ} → (S → Type ℓ) → Exec S A → Type ℓ
Keeps Q m = (s : _) → Q s → Q (m s).1

module _ {ℓ} {S A B : Type ℓ} (Q : S → Type ℓ) where
  pub bind-Keeps :
      (m : Exec S A) (k : A → Exec S B) → Keeps Q m → ((a : A) → Keeps Q (k a)) → Keeps Q (m >>= k)
  bind-Keeps m k hm hk s h = continued (m s).0 (m s).1 (hm s h)
    where
      continued : (r : Result A) (s' : S) → Q s' → Q (((λ _. (r, s')) >>= k) s).1
      continued (ok a) s' q = hk a s' q
      continued (err e) s' q = q

  pub except_return-Keeps :
      (m : Exec S A) (caught : Exception → Bool) (f : Exec S B) (k : A → Exec S B)
      → Keeps Q m
      → Keeps Q f
      → ((a : A) → Keeps Q (k a))
      → Keeps Q (except_return m caught f k)
  except_return-Keeps m caught f k hm hf hk s h = chosen_keeps (m s).0 (m s).1 (hm s h)
    where
      chosen_keeps :
          (r : Result A) (s' : S) → Q s' → Q (except_return (λ _. (r, s')) caught f k s).1
      chosen_keeps (ok a) s' q = hk a s' q
      chosen_keeps (err e) s' q = elim (Bool-cases (caught e)) [
        | inl held ↦ rw held (hf s' q)
        | inr passed ↦ rw passed q
      ]
