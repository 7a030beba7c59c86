-- ===== src/Prelude/Equality.antt =====
-- Python's `==` and `in`, for types whose equality is decided by a Boolean test.
use Prim.Native.Nat.{ℕ}
use mathlib.Core.Path.{◌≡◌, refl}
use mathlib.Core.Logic.{ite, dite, ◌↔◌}
use mathlib.Core.Bool.{Bool, true, false, ◌&&◌, ◌||◌, Bool-discrete}
use mathlib.Core.List.{List, [], ◌∷◌}
use native.Mathlib.Omega.{arith}
use postgres_dbre.Prelude.Basics.{nat_beq, nat_beq_iff}

pub record Eq {ℓ} (A : Type ℓ) : Type ℓ where
  pub dec : Discrete A

-- A decision from a Boolean test, so that an evaluation runs the test alone.
abbrev decide_by {ℓ} :
    {A : Type ℓ} (test : A → A → Bool) → ((a b : A) → (test a b ≡ true) ↔ (a ≡ b)) → Discrete A
decide_by test iff a b =
    dite (Bool-discrete (test a b) true) (λ same. yes ((iff a b).0 same))
      (λ differ. no (λ p. differ ((iff a b).1 p)))

module _ {ℓ} {A : Type ℓ} ⦃e : Eq A⦄ where
  infix 50 ◌==◌
  abbrev pub ◌==◌ : A → A → Bool
  a == b = ite (e.dec a b) true false

  pub ==_iff : (a b : A) → ((a == b) ≡ true) ↔ (a ≡ b)
  ==_iff a b = ground arith

  -- `a in xs`
  abbrev pub contains : List A → A → Bool
  contains [] a = false
  contains (x ∷ xs) a = a == x || contains xs a

  pub list_beq : List A → List A → Bool
  list_beq [] [] = true
  list_beq [] (y ∷ ys) = false
  list_beq (x ∷ xs) [] = false
  list_beq (x ∷ xs) (y ∷ ys) = x == y && list_beq xs ys

  pub list_beq_iff : (xs ys : List A) → (list_beq xs ys ≡ true) ↔ (xs ≡ ys)
  unfolding list_beq
  list_beq_iff [] [] = (λ _. refl, λ _. refl)
  list_beq_iff [] (y ∷ ys) = (λ h. cc, λ h. cc)
  list_beq_iff (x ∷ xs) [] = (λ h. cc, λ h. cc)
  list_beq_iff (x ∷ xs) (y ∷ ys) = ground (arith, list_beq_iff xs ys)

  instance unfoldable pub list_eq : Eq (List A)
  unfolding list_beq
  list_eq = record { dec = decide_by list_beq list_beq_iff }

instance unfoldable pub nat_eq : Eq ℕ
nat_eq = record { dec = decide_by nat_beq nat_beq_iff }
