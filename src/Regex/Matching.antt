-- ===== src/Regex/Matching.antt =====
-- What the matcher finds at a place, against the relation that a pattern stands for.
use mathlib.Core.Path.{subst}
use postgres_dbre.Prelude.{
  ℕ, zero, suc, ◌≤◌, ◌<◌, ◌≡◌, ◌↔◌, refl, sym, ◌⊎◌, inl, inr, Bool, true, false, some, List, [],
  ◌∷◌, length, if◌then◌else◌, arith,
}
use postgres_dbre.Text.{Text}
use postgres_dbre.Regex.{
  Regex, empty, one, seq, either, many, boundary, Place, word_before, word_after, differs, step,
  flat, rounds, ends,
}
use postgres_dbre.Regex.Places.{
  In, In-append_left, In-append_right, In-append_cases, In-flat, In-flat_from,
}

-- Any number of steps of a relation.
pub data Star (R : Place → Place → Type 0) : Place → Place → Type 0 where
  stop : {a : Place} → Star R a a
  more : {a b c : Place} → R a b → Star R b c → Star R a c

-- A pattern matches from one place to another.
abbrev pub Matches : Regex → Place → Place → Type 0
Matches empty a b = b ≡ a
Matches (one p) a b =
    (c : ℕ) × ((s : Text) × ((a.rest ≡ c ∷ s)
        × ((p c ≡ true) × (b ≡ record { before = some c; rest = s }))))
Matches (seq r q) a c = (b : Place) × (Matches r a b × Matches q b c)
Matches (either r q) a b = Matches r a b ⊎ Matches q a b
Matches (many r) a b = Star (Matches r) a b
Matches boundary a b = (differs (word_before a.before) (word_after a.rest) ≡ true) × (b ≡ a)

-- What is repeated takes at least one character.
abbrev pub IsProductive : Regex → Type 0
IsProductive empty = Unit
IsProductive (one p) = Unit
IsProductive (seq r q) = IsProductive r × IsProductive q
IsProductive (either r q) = IsProductive r × IsProductive q
IsProductive (many r) =
    IsProductive r × ((a b : Place) → Matches r a b → length b.rest < length a.rest)
IsProductive boundary = Unit

-- Every end that the matcher lists is the end of a match.
rounds-Star :
    (R : Place → Place → Type 0) (f : Place → List Place)
    → ((a b : Place) → In b (f a) → R a b)
    → (n : ℕ) (a b : Place) → In b (rounds n f a)
    → Star R a b
rounds-Star R f sound zero a b (inl e) = subst (Star R a) (sym e) stop
rounds-Star R f sound zero a b (inr h) = absurd h
rounds-Star R f sound (suc n) a b h =
    elim (In-append_cases b (flat (rounds n f) (f a)) (a ∷ []) h) [
      | inl l ↦
          let (c, (first, later)) = In-flat_from (rounds n f) b (f a) l in
          more (sound a c first) (rounds-Star R f sound n c b later)
      | inr (inl e) ↦ subst (Star R a) (sym e) stop
      | inr (inr h) ↦ absurd h
    ]

one_of_two :
    (test : Bool) (b d : Place) → In b (if test then d ∷ [] else []) ↔ ((test ≡ true) × (b ≡ d))
one_of_two true b d = (λ h. elim h [ inl e ↦ (refl, e) | inr h ↦ absurd h ], λ h. inl h.1)
one_of_two false b d = (λ h. absurd h, λ h. cc h.0)

step-Matches :
    (p : ℕ → Bool) (a b : Place) (s : Text) → a.rest ≡ s → In b (step p s) → Matches (one p) a b
step-Matches p a b [] at h = absurd h
step-Matches p a b (c ∷ s) at h =
    let (holds, same) = (one_of_two (p c) b (record { before = some c; rest = s })).0 h in
    (c, (s, (at, (holds, same))))

Matches-step : (p : ℕ → Bool) (a b : Place) → Matches (one p) a b → In b (step p a.rest)
Matches-step p a b (c, (s, (at, (holds, same)))) =
    subst (λ t. In b (step p t)) (sym at)
      ((one_of_two (p c) b (record { before = some c; rest = s })).1 (holds, same))

pub ends-Matches : (r : Regex) (a b : Place) → In b (ends r a) → Matches r a b
unfolding ends
ends-Matches empty a b (inl e) = e
ends-Matches empty a b (inr h) = absurd h
ends-Matches (one p) a b h = step-Matches p a b a.rest refl h
ends-Matches (seq r q) a b h =
    let (c, (first, later)) = In-flat_from (ends q) b (ends r a) h in
    (c, (ends-Matches r a c first, ends-Matches q c b later))
ends-Matches (either r q) a b h = elim (In-append_cases b (ends r a) (ends q a) h) [
  | inl l ↦ inl (ends-Matches r a b l)
  | inr l ↦ inr (ends-Matches q a b l)
]
ends-Matches (many r) a b h =
    rounds-Star (Matches r) (ends r) (ends-Matches r) (length a.rest) a b h
ends-Matches boundary a b h =
    (one_of_two (differs (word_before a.before) (word_after a.rest)) b a).0 h

-- As many rounds as there are characters list every end of a repetition whose steps take some.
Star-rounds :
    (R : Place → Place → Type 0) (f : Place → List Place)
    → ((a b : Place) → R a b → In b (f a))
    → ((a b : Place) → R a b → length b.rest < length a.rest)
    → (n : ℕ) (a b : Place) → length a.rest ≤ n
    → Star R a b
    → In b (rounds n f a)
Star-rounds R f complete shorter zero a b fuel stop = inl refl
Star-rounds R f complete shorter (suc n) a b fuel stop =
    In-append_right a (flat (rounds n f) (f a)) (a ∷ []) (inl refl)
Star-rounds R f complete shorter zero a b fuel (more {b = c} first rest) =
    absurd (omega (arith, shorter a c first, fuel))
Star-rounds R f complete shorter (suc n) a b fuel (more {b = c} first rest) =
    In-append_left b (flat (rounds n f) (f a)) (a ∷ []) (
      In-flat (rounds n f) b c (f a) (complete a c first)
        (Star-rounds R f complete shorter n c b (omega (arith, shorter a c first, fuel)) rest))

pub Matches-ends : (r : Regex) → IsProductive r → (a b : Place) → Matches r a b → In b (ends r a)
unfolding ends
Matches-ends empty g a b e = inl e
Matches-ends (one p) g a b m = Matches-step p a b m
Matches-ends (seq r q) (gr, gq) a b (c, (first, later)) =
    In-flat (ends q) b c (ends r a) (Matches-ends r gr a c first) (Matches-ends q gq c b later)
Matches-ends (either r q) (gr, gq) a b (inl m) =
    In-append_left b (ends r a) (ends q a) (Matches-ends r gr a b m)
Matches-ends (either r q) (gr, gq) a b (inr m) =
    In-append_right b (ends r a) (ends q a) (Matches-ends q gq a b m)
Matches-ends (many r) (g, shorter) a b m =
    Star-rounds (Matches r) (ends r) (Matches-ends r g) shorter (length a.rest) a b (omega arith) m
Matches-ends boundary g a b h =
    (one_of_two (differs (word_before a.before) (word_after a.rest)) b a).1 h
