-- ===== src/Python/Equality.antt =====
-- Python's `==` and `in`, for the types that the program compares.
use mathlib.Core.Logic.{◌↔◌}
use jet_core_service_bus.Prelude.{
  String, ◌≡◌, refl, Bool, true, false, ◌&&◌, ◌||◌, List, [], ◌∷◌, ◌++◌, arith, str_eq, eq_iff,
}

pub record Eq {ℓ} (A : Type ℓ) : Type ℓ where
  pub equals : A → A → Bool
  pub equals_iff : (a b : A) → (equals a b ≡ true) ↔ (a ≡ b)

infix 50 ◌=?◌
abbrev pub ◌=?◌ {ℓ} : {A : Type ℓ} ⦃e : Eq A⦄ → A → A → Bool
◌=?◌ ⦃e⦄ = e.equals

instance abbrev pub string_eq : Eq String
string_eq = record { equals = str_eq; equals_iff = eq_iff }

abbrev pub texts_eq : List String → List String → Bool
texts_eq [] [] = true
texts_eq (x ∷ xs) (y ∷ ys) = str_eq x y && texts_eq xs ys
texts_eq _ _ = false

pub texts_eq_iff : (xs ys : List String) → (texts_eq xs ys ≡ true) ↔ (xs ≡ ys)
texts_eq_iff [] [] = (λ _. refl, λ _. refl)
texts_eq_iff (x ∷ xs) (y ∷ ys) = ground (arith, eq_iff x y, texts_eq_iff xs ys)
texts_eq_iff [] (y ∷ ys) = ground arith
texts_eq_iff (x ∷ xs) [] = ground arith

instance abbrev pub texts_eq_inst : Eq (List String)
texts_eq_inst = record { equals = texts_eq; equals_iff = texts_eq_iff }

module _ {ℓ} {A : Type ℓ} ⦃e : Eq A⦄ where
  -- `a in xs`
  abbrev pub contains : List A → A → Bool
  contains [] a = false
  contains (x ∷ xs) a = a =? x || contains xs a

  pub contains-append :
      (xs ys : List A) (a : A) → contains (xs ++ ys) a ≡ (contains xs a || contains ys a)
  contains-append [] ys a = refl
  contains-append (x ∷ xs) ys a = ground (arith, contains-append xs ys a)

  pub equals_refl : (a : A) → (a =? a) ≡ true
  equals_refl a = (e.equals_iff a a).1 refl
