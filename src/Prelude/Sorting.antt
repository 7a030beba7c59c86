-- ===== src/Prelude/Sorting.antt =====
-- `sorted` of a list of texts or numbers, by insertion, and `sorted(set(xs))`.
use mathlib.Core.Path.{◌≡◌, refl, sym, ap, subst}
use mathlib.Core.Bool.{Bool, true, ◌||◌, ◌&&◌}
use native.Mathlib.Omega.{arith}
use mathlib.Core.List.{List, [], ◌∷◌}
use postgres_dbre.Prelude.Basics.{if◌then◌else◌, All, keep_if}
use postgres_dbre.Prelude.Equality.{Eq, ◌==◌, contains}

module _ {ℓ} {A : Type ℓ} (le : A → A → Bool) where
  unfoldable pub insert_sorted : A → List A → List A
  insert_sorted x [] = x ∷ []
  insert_sorted x (y ∷ ys) = if le x y then x ∷ y ∷ ys else y ∷ insert_sorted x ys

  unfoldable pub sorted : List A → List A
  unfolding insert_sorted
  sorted [] = []
  sorted (x ∷ xs) = insert_sorted x (sorted xs)

-- The members of a set, each once.
unfoldable pub to_set {ℓ} : {A : Type ℓ} ⦃e : Eq A⦄ → List A → List A
to_set [] = []
to_set (x ∷ xs) = let rest = to_set xs in if contains xs x then rest else x ∷ rest

module _ {ℓ κ} {A : Type ℓ} (le : A → A → Bool) (P : A → Type κ) where
  All-insert_sorted : (x : A) (xs : List A) → P x → All P xs → All P (insert_sorted le x xs)
  unfolding insert_sorted
  All-insert_sorted x [] px h = (px, tt)
  All-insert_sorted x (y ∷ ys) px (py, h) = ground (arith, All-insert_sorted x ys px h)

  pub All-sorted : (xs : List A) → All P xs → All P (sorted le xs)
  unfolding sorted
  All-sorted [] h = tt
  All-sorted (x ∷ xs) (px, h) = All-insert_sorted x (sorted le xs) px (All-sorted xs h)

module _ {ℓ} {A : Type ℓ} ⦃e : Eq A⦄ where
  contains-insert_sorted :
      (le : A → A → Bool) (a x : A) (xs : List A)
      → contains (insert_sorted le x xs) a ≡ (a == x || contains xs a)
  unfolding insert_sorted
  contains-insert_sorted le a x [] = refl
  contains-insert_sorted le a x (y ∷ ys) = ground (arith, contains-insert_sorted le a x ys)

  pub contains-sorted :
      (le : A → A → Bool) (xs : List A) (a : A) → contains (sorted le xs) a ≡ contains xs a
  unfolding sorted
  contains-sorted le [] a = refl
  contains-sorted le (x ∷ xs) a =
      ground (arith, contains-insert_sorted le a x (sorted le xs), contains-sorted le xs a)

  pub contains-to_set : (xs : List A) (a : A) → contains (to_set xs) a ≡ contains xs a
  unfolding to_set
  contains-to_set [] a = refl
  contains-to_set (x ∷ xs) a = ground (arith, contains-to_set xs a)

  -- Every member of a list is in it, and in every list that has its members.
  pub All-contains :
      (ys xs : List A)
      → ((a : A) → contains xs a ≡ true → contains ys a ≡ true)
      → All (λ a. contains ys a ≡ true) xs
  All-contains ys [] h = tt
  All-contains ys (x ∷ xs) h = (h x (ground arith), All-contains ys xs (λ a m. h a (ground arith)))

  pub contains-keep_if :
      (p : A → Bool) (xs : List A) (a : A) → contains (keep_if p xs) a ≡ (contains xs a && p a)
  contains-keep_if p [] a = refl
  contains-keep_if p (x ∷ xs) a = elim (e.dec a x) [
    | yes same ↦ ground (arith, contains-keep_if p xs a, ap p same)
    | no differ ↦ ground (arith, contains-keep_if p xs a)
  ]

  pub All-at {κ} : (P : A → Type κ) (xs : List A) (a : A) → All P xs → contains xs a ≡ true → P a
  All-at P [] a h m = cc
  All-at P (x ∷ xs) a (px, h) m = elim (e.dec a x) [
    | yes same ↦ subst P (sym same) px
    | no differ ↦ All-at P xs a h (ground arith)
  ]
