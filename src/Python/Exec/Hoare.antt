-- ===== src/Python/Exec/Hoare.antt =====
-- What a computation brings about: from a state of `P`, a state of `Q` when it returns and one of
-- `E` when it raises.
use jet_core_service_bus.Prelude.{refl, ◌≡◌, Bool, true, false, inl, inr, Bool-cases, if◌then◌else◌}
use jet_core_service_bus.Python.Exception.{Exception, Result, ok, err}
use jet_core_service_bus.Python.Exec.Keeps.{Keeps}
use jet_core_service_bus.Python.Exec.{
  Exec, pure, raise, lift, ◌>>=◌, except, except_return, finally,
}

abbrev pub Ends {ℓ} :
    {S A : Type ℓ} → (A → S → Type ℓ) → (Exception → S → Type ℓ) → Result A × S → Type ℓ
Ends Q E (ok a, s) = Q a s
Ends Q E (err e, s) = E e s

abbrev pub Triple {ℓ} :
    {S A : Type ℓ} → (S → Type ℓ) → Exec S A → (A → S → Type ℓ) → (Exception → S → Type ℓ) → Type ℓ
Triple P m Q E = (s : _) → P s → Ends Q E (m s)

module _ {ℓ} {S A B : Type ℓ} (P : S → Type ℓ) (R : A → S → Type ℓ) (Q : B → S → Type ℓ)
    (E : Exception → S → Type ℓ) where
  pub bind-Triple :
      (m : Exec S A) (k : A → Exec S B)
      → Triple P m R E
      → ((a : A) → Triple (R a) (k a) Q E)
      → Triple P (m >>= k) Q E
  bind-Triple m k hm hk s h = continued (m s).0 (m s).1 (hm s h)
    where
      continued : (r : Result A) (s' : S) → Ends R E (r, s') → Ends Q E (((λ _. (r, s')) >>= k) s)
      continued (ok a) s' q = hk a s' q
      continued (err e) s' q = q

module _ {ℓ} {S A B : Type ℓ} (R : A → S → Type ℓ) (Q : B → S → Type ℓ)
    (F E : Exception → S → Type ℓ) (m : Exec S A) (caught : Exception → Bool) (f : Exec S B)
    (k : A → Exec S B) (hf : (e : Exception) → caught e ≡ true → Triple (F e) f Q E)
    (he : (e : Exception) (s : S) → caught e ≡ false → F e s → E e s)
    (hk : (a : A) → Triple (R a) (k a) Q E) where
  -- `F` holds where the first part raises; the handler takes what it catches from there.
  pub except_return-Ends : (s : S) → Ends R F (m s) → Ends Q E (except_return m caught f k s)
  except_return-Ends s h = chosen_ends (m s).0 (m s).1 h
    where
      chosen_ends :
          (r : Result A) (s' : S)
          → Ends R F (r, s')
          → Ends Q E (except_return (λ _. (r, s')) caught f k s)
      chosen_ends (ok a) s' q = hk a s' q
      chosen_ends (err e) s' q = elim (Bool-cases (caught e)) [
        | inl held ↦ rw held (hf e held s' q)
        | inr passed ↦ rw passed (he e s' passed q)
      ]

module _ {ℓ} {S A : Type ℓ} (Q : A → S → Type ℓ) (F E : Exception → S → Type ℓ) (m : Exec S A)
    (caught : Exception → Bool) (f : Exception → Exec S A)
    (hf : (e : Exception) → caught e ≡ true → Triple (F e) (f e) Q E)
    (he : (e : Exception) (s : S) → caught e ≡ false → F e s → E e s) where
  pub except-Ends : (s : S) → Ends Q F (m s) → Ends Q E (except m caught f s)
  except-Ends s h = handled (m s).0 (m s).1 h
    where
      handled :
          (r : Result A) (s' : S) → Ends Q F (r, s') → Ends Q E (except (λ _. (r, s')) caught f s)
      handled (ok a) s' q = q
      handled (err e) s' q = elim (Bool-cases (caught e)) [
        | inl held ↦ rw held (hf e held s' q)
        | inr passed ↦ rw passed (he e s' passed q)
      ]

module _ {ℓ} {S A : Type ℓ} {P : S → Type ℓ} {Q Q' : A → S → Type ℓ}
    {E E' : Exception → S → Type ℓ} where
  pub weaken-Triple :
      (m : Exec S A)
      → ((a : A) (s : S) → Q a s → Q' a s)
      → ((e : Exception) (s : S) → E e s → E' e s)
      → Triple P m Q E
      → Triple P m Q' E'
  weaken-Triple m hq he h s p = ends (m s).0 (m s).1 (h s p)
    where
      ends : (r : Result A) (s' : S) → Ends Q E (r, s') → Ends Q' E' (r, s')
      ends (ok a) s' q = hq a s' q
      ends (err e) s' q = he e s' q

module _ {ℓ} {S A : Type ℓ} (P : S → Type ℓ) where
  pub Keeps-Triple : (m : Exec S A) → Keeps P m → Triple P m (λ _. P) (λ _. P)
  Keeps-Triple m h s p = ends (m s).0 (m s).1 (h s p)
    where
      ends : (r : Result A) (s' : S) → P s' → Ends (λ _. P) (λ _. P) (r, s')
      ends (ok a) s' q = q
      ends (err e) s' q = q

pub lift-Ends {ℓ} :
    {S A : Type ℓ} (r : Result A) (s : S)
    → Ends (λ a s'. (r ≡ ok a) × (s ≡ s')) (λ e s'. (r ≡ err e) × (s ≡ s')) (lift r s)
lift-Ends (ok a) s = (refl, refl)
lift-Ends (err e) s = (refl, refl)

module _ {ℓ} {S A : Type ℓ} (P : S → Type ℓ) where
  pub Triple-Keeps : (m : Exec S A) → Triple P m (λ _. P) (λ _. P) → Keeps P m
  Triple-Keeps m h s p = kept (m s).0 (m s).1 (h s p)
    where
      kept : (r : Result A) (s' : S) → Ends (λ _. P) (λ _. P) (r, s') → P s'
      kept (ok a) s' q = q
      kept (err e) s' q = q

module _ {ℓ} {S A B : Type ℓ} (Q Q' : A → S → Type ℓ) (E E' : Exception → S → Type ℓ) (m : Exec S A)
    (f : Exec S B) (hq : (a : A) → Triple (Q a) f (λ _. Q' a) E')
    (he : (e : Exception) → Triple (E e) f (λ _. E' e) E') where
  pub finally-Ends : (s : S) → Ends Q E (m s) → Ends Q' E' (finally m f s)
  finally-Ends s h = closed (m s).0 (m s).1 h
    where
      done :
          (a : A) (r : Result B) (s' : S)
          → Ends (λ _. Q' a) E' (r, s')
          → Ends Q' E' (finally (pure a) (λ _. (r, s')) s)
      done a (ok b) s' q = q
      done a (err e) s' q = q

      undone :
          (e : Exception) (r : Result B) (s' : S)
          → Ends (λ _. E' e) E' (r, s')
          → Ends Q' E' (finally (raise e) (λ _. (r, s')) s)
      undone e (ok b) s' q = q
      undone e (err x) s' q = q

      closed : (r : Result A) (s' : S) → Ends Q E (r, s') → Ends Q' E' (finally (λ _. (r, s')) f s)
      closed (ok a) s' q = done a (f s').0 (f s').1 (hq a s' q)
      closed (err e) s' q = undone e (f s').0 (f s').1 (he e s' q)

module _ {ℓ} {S A : Type ℓ} (P : S → Type ℓ) (Q : A → S → Type ℓ) (E : Exception → S → Type ℓ) where
  pub if-Triple :
      (b : Bool) (m k : Exec S A)
      → Triple P m Q E
      → Triple P k Q E
      → Triple P (if b then m else k) Q E
  if-Triple true m k hm hk = hm
  if-Triple false m k hm hk = hk
