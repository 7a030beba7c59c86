-- ===== src/Checks/Links/Found.antt =====
-- The loop of `find_links` ends by itself: its fuel is enough.
use postgres_dbre.Prelude.{
  ℕ, zero, suc, ◌≤◌, ◌≡◌, refl, sym, ap, ◌∙◌, inl, inr, Bool, Bool-cases, Option, none, some,
  Option-cases, List, [], ◌∷◌, length, arith, nat_beq,
}
use postgres_dbre.Text.{Text, is_space, lstrip}
use postgres_dbre.Checks.Links.{
  span_until, after_char, then_after, is_quote, after_title, after_target, ends_target, with_target,
  link_target, is_closing, match_link, find_links_from, find_links,
}

span_until_shorter : (stop : ℕ → Bool) (s : Text) → length (span_until stop s).1 ≤ length s
unfolding span_until
span_until_shorter stop [] = omega arith
span_until_shorter stop (c ∷ s) = ground (arith, span_until_shorter stop s)

lstrip_shorter : (p : ℕ → Bool) (s : Text) → length (lstrip p s) ≤ length s
unfolding lstrip
lstrip_shorter p [] = omega arith
lstrip_shorter p (c ∷ s) = ground (arith, lstrip_shorter p s)

-- What is left, where something is, has no more than `n` characters.
abbrev IsWithin : ℕ → Option Text → Type 0
IsWithin n none = Unit
IsWithin n (some s) = length s ≤ n

after_char-IsWithin : (c n : ℕ) (s : Text) → length s ≤ n → IsWithin n (after_char c s)
after_char-IsWithin c n [] h = tt
after_char-IsWithin c n (d ∷ s) h = elim (Bool-cases (nat_beq c d)) [
  | inl e ↦ rw e (omega arith)
  | inr e ↦ rw e tt
]

then_after-IsWithin :
    (n : ℕ) (o : Option Text) (f : Text → Option Text)
    → IsWithin n o
    → ((s : Text) → length s ≤ n → IsWithin n (f s))
    → IsWithin n (then_after o f)
then_after-IsWithin n none f h k = tt
then_after-IsWithin n (some s) f h k = k s h

-- A quoted part or a bracket: the text behind the opening character, up to the closing one.
closed-IsWithin :
    (n open_char close_char : ℕ) (stop : ℕ → Bool) (next : ℕ) (s : Text)
    → length s ≤ n
    → IsWithin n (
        then_after
          (after_char open_char s)
          λ inner. then_after (after_char close_char (span_until stop inner).1) (after_char next))
closed-IsWithin n open_char close_char stop next s h =
    then_after-IsWithin n (after_char open_char s) _ (after_char-IsWithin open_char n s h)
      λ inner k.
        then_after-IsWithin n (after_char close_char (span_until stop inner).1) (after_char next)
          (after_char-IsWithin close_char n (span_until stop inner).1
            (omega (arith, span_until_shorter stop inner)))
          (after_char-IsWithin next n)

after_target-IsWithin : (n : ℕ) (s : Text) → length s ≤ n → IsWithin n (after_target s)
unfolding after_target after_title
after_target-IsWithin n [] h = tt
after_target-IsWithin n (c ∷ s) h = elim (Bool-cases (nat_beq c b')')) [
  | inl e ↦ rw e (omega arith)
  | inr e ↦ elim (Bool-cases (is_space c)) [
    | inr f ↦ rw (e, f) tt
    | inl f ↦
        rw (e, f)
          (closed-IsWithin n b'"' b'"' is_quote b')' (lstrip is_space s)
            (omega (arith, lstrip_shorter is_space s)))
  ]
]

-- A match ends behind its place.
with_target_shorter :
    (n : ℕ) (target : Text) (o : Option Text)
    → IsWithin n o
    → (found rest : Text) → with_target target o ≡ some (found, rest)
    → length rest ≤ n
with_target_shorter n [] o w found rest h = cc
with_target_shorter n (c ∷ target) none w found rest h = cc
with_target_shorter n (c ∷ target) (some s) w found rest h = ground arith

link_target_shorter :
    (n : ℕ) (o : Option Text)
    → IsWithin n o
    → (found rest : Text) → link_target o ≡ some (found, rest)
    → length rest ≤ n
link_target_shorter n none w found rest h = cc
link_target_shorter n (some s) w found rest h =
    with_target_shorter n (span_until ends_target s).0 (after_target (span_until ends_target s).1)
      (after_target-IsWithin n (span_until ends_target s).1
        (omega (arith, span_until_shorter ends_target s)))
      found rest h

first_char-IsWithin : (c d : ℕ) (s : Text) → IsWithin (length s) (after_char c (d ∷ s))
first_char-IsWithin c d s = elim (Bool-cases (nat_beq c d)) [
  | inl e ↦ rw e (omega arith)
  | inr e ↦ rw e tt
]

match_link_shorter :
    (c : ℕ) (s found rest : Text) → match_link (c ∷ s) ≡ some (found, rest) → length rest ≤ length s
unfolding match_link
match_link_shorter c s found rest h =
    link_target_shorter (length s) _
      (then_after-IsWithin (length s) (after_char b'[' (c ∷ s)) _ (first_char-IsWithin b'[' c s)
        λ inner k.
          then_after-IsWithin (length s) (after_char b']' (span_until is_closing inner).1)
            (after_char b'(')
            (after_char-IsWithin b']' (length s) (span_until is_closing inner).1
              (omega (arith, span_until_shorter is_closing inner)))
            (after_char-IsWithin b'(' (length s)))
      found rest h

-- One round at a place with a match, and at one without.
find_round_match :
    (fuel c : ℕ) (s found rest : Text)
    → match_link (c ∷ s) ≡ some (found, rest)
    → find_links_from (suc fuel) (c ∷ s) ≡ found ∷ find_links_from fuel rest
unfolding find_links_from
find_round_match fuel c s found rest h = rw (h, find_links_from)

find_round_none :
    (fuel c : ℕ) (s : Text)
    → match_link (c ∷ s) ≡ none
    → find_links_from (suc fuel) (c ∷ s) ≡ find_links_from fuel s
unfolding find_links_from
find_round_none fuel c s h = rw (h, find_links_from)

find_links_nil : (fuel : ℕ) → find_links_from fuel [] ≡ []
unfolding find_links_from
find_links_nil zero = refl
find_links_nil (suc fuel) = refl

enough_fuel :
    (f g : ℕ) (s : Text) → length s ≤ f → length s ≤ g → find_links_from f s ≡ find_links_from g s
enough_fuel f g [] hf hg = find_links_nil f ∙ sym (find_links_nil g)
enough_fuel zero g (c ∷ s) hf hg = absurd (omega arith)
enough_fuel (suc f) zero (c ∷ s) hf hg = absurd (omega arith)
enough_fuel (suc f) (suc g) (c ∷ s) hf hg = elim (Option-cases (match_link (c ∷ s))) [
  | inl e ↦
      find_round_none f c s e
      ∙ enough_fuel f g s (omega arith) (omega arith)
      ∙ sym (find_round_none g c s e)
  | inr ((found, rest), e) ↦
      let shorter = match_link_shorter c s found rest e in
      find_round_match f c s found rest e
      ∙ ap (λ links. found ∷ links) (enough_fuel f g rest (omega arith) (omega arith))
      ∙ sym (find_round_match g c s found rest e)
]

-- The groups that a scan finds from a place on: those of the match at the place and of the scan
-- behind it, or, without a match, those of the scan from the next place on.
abbrev pub scan_on : Text → Option (Text × Text) → List Text
scan_on s none = find_links s
scan_on s (some (found, rest)) = found ∷ find_links rest

-- The scan is not cut short by its fuel: on no characters it finds nothing, and at every place it
-- takes a match with all that is found behind it, or goes on to the next place.
pub find_links_complete :
    (find_links [] ≡ [])
    × ((c : ℕ) (s : Text) → find_links (c ∷ s) ≡ scan_on s (match_link (c ∷ s)))
unfolding find_links
find_links_complete = (
  find_links_nil 0,
  λ c s. elim (Option-cases (match_link (c ∷ s))) [
    | inl e ↦ rw e (find_round_none (length s) c s e)
    | inr ((found, rest), e) ↦
        let shorter = match_link_shorter c s found rest e in
        rw e (
          find_round_match (length s) c s found rest e
          ∙ ap (λ links. found ∷ links)
              (enough_fuel (length s) (length rest) rest (omega arith) (omega arith)))
  ],
)
