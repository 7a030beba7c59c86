-- ===== src/Regex/Found.antt =====
-- What the search finds in a text, against the relation that a pattern stands for.
use mathlib.Core.Path.{subst}
use postgres_dbre.Prelude.{
  ℕ, ◌≡◌, ◌↔◌, refl, inl, inr, true, not, Bool-cases, Option, none, some, List, [], ◌∷◌, is_empty,
}
use postgres_dbre.Text.{Text}
use postgres_dbre.Regex.{Regex, Place, ends, search_from, search_in}
use postgres_dbre.Regex.Places.{In}
use postgres_dbre.Regex.Matching.{Matches, IsProductive, ends-Matches, Matches-ends}

-- The places of a text: its start, and behind each of its characters.
pub data Within : Option ℕ → Text → Place → Type 0 where
  at_start :
      {before : Option ℕ} {s : Text} {a : Place}
      → a ≡ record { before = before; rest = s }
      → Within before s a
  further :
      {before : Option ℕ} {s : Text} {a : Place} {c : ℕ}
      → Within (some c) s a
      → Within before (c ∷ s) a

-- A match somewhere in the text.
pub record IsFound (r : Regex) (before : Option ℕ) (s : Text) : Type 0 where
  pub start : Place
  pub end : Place
  pub within : Within before s start
  pub matched : Matches r start end

is_empty-In : (xs : List Place) → (not (is_empty xs) ≡ true) ↔ ((x : Place) × In x xs)
is_empty-In [] = (λ h. cc h, λ (x, h). absurd h)
is_empty-In (x ∷ xs) = (λ h. (x, inl refl), λ h. refl)

here_iff :
    (r : Regex)
    → IsProductive r
    → (a : Place) → (not (is_empty (ends r a)) ≡ true) ↔ ((b : Place) × Matches r a b)
here_iff r g a = (
  λ h. let (b, found) = (is_empty-In (ends r a)).0 h in (b, ends-Matches r a b found),
  λ (b, m). (is_empty-In (ends r a)).1 (b, Matches-ends r g a b m),
)

search_from-IsFound :
    (r : Regex)
    → IsProductive r
    → (before : Option ℕ) (s : Text) → search_from r before s ≡ true
    → IsFound r before s
unfolding search_from
search_from-IsFound r g before [] h =
    let (b, m) = (here_iff r g (record { before = before; rest = [] })).0 h in
    record { start = _; end = b; within = at_start refl; matched = m }
search_from-IsFound r g before (c ∷ s) h =
    elim (Bool-cases (not (is_empty (ends r (record { before = before; rest = c ∷ s }))))) [
      | inl e ↦
          let (b, m) = (here_iff r g (record { before = before; rest = c ∷ s })).0 e in
          record { start = _; end = b; within = at_start refl; matched = m }
      | inr e ↦
          let later = search_from-IsFound r g (some c) s (rw e at h) in
          record {
            start = later.start;
            end = later.end;
            within = further later.within;
            matched = later.matched;
          }
    ]

found_search_from :
    (r : Regex)
    → IsProductive r
    → (before : Option ℕ) (s : Text) (a b : Place) → Within before s a
    → Matches r a b
    → search_from r before s ≡ true
unfolding search_from
found_search_from r g before [] a b (at_start e) m =
    subst (λ x. not (is_empty (ends r x)) ≡ true) e ((here_iff r g a).1 (b, m))
found_search_from r g before (c ∷ s) a b (at_start e) m =
    rw (subst (λ x. not (is_empty (ends r x)) ≡ true) e ((here_iff r g a).1 (b, m))) refl
found_search_from r g before (c ∷ s) a b (further w) m =
    let later = found_search_from r g (some c) s a b w m in
    elim (Bool-cases (not (is_empty (ends r (record { before = before; rest = c ∷ s }))))) [
      | inl e ↦ rw e refl
      | inr e ↦ rw e later
    ]

-- For a pattern whose repetitions take at least one character a step: the search finds something
-- exactly if the pattern matches from a place of the text to another.
pub search_in_iff :
    (r : Regex) (s : Text) → IsProductive r → (search_in r s ≡ true) ↔ IsFound r none s
unfolding search_in
search_in_iff r s g = (
  search_from-IsFound r g none s,
  λ f. found_search_from r g none s f.start f.end f.within f.matched,
)
