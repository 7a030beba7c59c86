-- ===== src/Regex/Places.antt =====
-- Membership in the lists of places that the matcher goes through.
use mathlib.Core.Path.{subst}
use postgres_dbre.Prelude.{◌≡◌, refl, ◌⊎◌, inl, inr, List, [], ◌∷◌, ◌++◌}
use postgres_dbre.Regex.{Place, flat}

abbrev pub In : Place → List Place → Type 0
In x [] = ⊥
In x (y ∷ ys) = (x ≡ y) ⊎ In x ys

pub In-append_left : (x : Place) (xs ys : List Place) → In x xs → In x (xs ++ ys)
In-append_left x [] ys h = absurd h
In-append_left x (z ∷ xs) ys (inl e) = inl e
In-append_left x (z ∷ xs) ys (inr h) = inr (In-append_left x xs ys h)

pub In-append_right : (x : Place) (xs ys : List Place) → In x ys → In x (xs ++ ys)
In-append_right x [] ys h = h
In-append_right x (z ∷ xs) ys h = inr (In-append_right x xs ys h)

pub In-append_cases : (x : Place) (xs ys : List Place) → In x (xs ++ ys) → In x xs ⊎ In x ys
In-append_cases x [] ys h = inr h
In-append_cases x (z ∷ xs) ys (inl e) = inl (inl e)
In-append_cases x (z ∷ xs) ys (inr h) = elim (In-append_cases x xs ys h) [
  | inl l ↦ inl (inr l)
  | inr r ↦ inr r
]

pub In-flat :
    (f : Place → List Place) (x y : Place) (ys : List Place)
    → In y ys
    → In x (f y)
    → In x (flat f ys)
In-flat f x y [] l h = absurd l
In-flat f x y (z ∷ ys) (inl e) h = In-append_left x (f z) (flat f ys) (subst (λ w. In x (f w)) e h)
In-flat f x y (z ∷ ys) (inr l) h = In-append_right x (f z) (flat f ys) (In-flat f x y ys l h)

pub In-flat_from :
    (f : Place → List Place) (x : Place) (ys : List Place)
    → In x (flat f ys)
    → (y : Place) × (In y ys × In x (f y))
In-flat_from f x [] h = absurd h
In-flat_from f x (z ∷ ys) h = elim (In-append_cases x (f z) (flat f ys) h) [
  | inl l ↦ (z, (inl refl, l))
  | inr r ↦ let (y, (later, found)) = In-flat_from f x ys r in (y, (inr later, found))
]
