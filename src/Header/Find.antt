-- ===== src/Header/Find.antt =====
-- Searching a text that is made of lines, for a text that holds no newline.
use mathlib.Core.Path.{subst}
use postgres_dbre.Prelude.{
  ℕ, zero, suc, ◌≡◌, refl, ap, ◌∙◌, true, false, not, Option, none, some, List, [], ◌∷◌, ◌++◌,
  arith, nat_beq, All, all, append_assoc,
}
use postgres_dbre.Text.{Text, codes, newline, after_prefix, starts_with, has_text}
use postgres_dbre.Header.{until, find_safety}

-- The lines, each with its newline, before `rest`.
abbrev pub closed_onto : List Text → Text → Text
closed_onto [] rest = rest
closed_onto (l ∷ ls) rest = l ++ (newline ∷ closed_onto ls rest)

abbrev pub OneLine : Text → Type 0
OneLine = All (λ c. nat_beq c newline ≡ false)

-- No line holds the text `p`.
abbrev pub AllLack : Text → List Text → Type 0
AllLack p = All (λ l. has_text p l ≡ false)

pub closed_onto-append :
    (ls : List Text) (rest more : Text)
    → closed_onto ls rest ++ more ≡ closed_onto ls (rest ++ more)
closed_onto-append [] rest more = refl
closed_onto-append (l ∷ ls) rest more =
    append_assoc l (newline ∷ closed_onto ls rest) more
    ∙ ap (λ t. l ++ (newline ∷ t)) (closed_onto-append ls rest more)

after_prefix-line :
    (p l rest : Text)
    → OneLine p
    → after_prefix p l ≡ none
    → after_prefix p (l ++ (newline ∷ rest)) ≡ none
unfolding after_prefix
after_prefix-line [] l rest one h = cc
after_prefix-line (c ∷ p) [] rest (differs, one) h = rw differs
after_prefix-line (c ∷ p) (d ∷ l) rest (differs, one) h =
    ground (arith, after_prefix-line p l rest one)

after_prefix_of_lacks : (p l : Text) → has_text p l ≡ false → after_prefix p l ≡ none
unfolding has_text starts_with
after_prefix_of_lacks [] [] h = cc
after_prefix_of_lacks (x ∷ p) [] h = refl
after_prefix_of_lacks p (c ∷ l) h = ground arith

lacks_tail : (p : Text) (c : ℕ) (l : Text) → has_text p (c ∷ l) ≡ false → has_text p l ≡ false
unfolding has_text
lacks_tail p c l h = ground arith

-- A line that lacks the end of the comment is passed over.
until-line :
    (l rest before after : Text)
    → has_text (codes "*/") l ≡ false
    → until (codes "*/") rest ≡ some (before, after)
    → until (codes "*/") (l ++ (newline ∷ rest)) ≡ some (l ++ (newline ∷ before), after)
unfolding until after_prefix
until-line [] rest before after lacks h = rw h
until-line (c ∷ l) rest before after lacks h = rw (
  after_prefix-line (codes "*/") (c ∷ l) rest (refl, (refl, tt))
      (after_prefix_of_lacks (codes "*/") (c ∷ l) lacks),
  until-line l rest before after (lacks_tail (codes "*/") c l lacks) h,
)

pub until-closed :
    (ls : List Text) (rest : Text)
    → AllLack (codes "*/") ls
    → until (codes "*/") (closed_onto ls (codes "*/" ++ rest)) ≡ some (closed_onto ls [], rest)
unfolding until after_prefix
until-closed [] rest lacks = refl
until-closed (l ∷ ls) rest (lack, lacks) =
    until-line l _ (closed_onto ls []) rest lack (until-closed ls rest lacks)

-- Lines that lack the keyword are passed over.
find_safety-line :
    (l rest : Text)
    → has_text (codes "SAFETY:") l ≡ false
    → find_safety (l ++ (newline ∷ rest)) ≡ find_safety rest
unfolding find_safety after_prefix
find_safety-line [] rest lacks = refl
find_safety-line (c ∷ l) rest lacks =
    rw
      (after_prefix-line (codes "SAFETY:") (c ∷ l) rest
        (refl, (refl, (refl, (refl, (refl, (refl, (refl, tt)))))))
        (after_prefix_of_lacks (codes "SAFETY:") (c ∷ l) lacks))
      (find_safety-line l rest (lacks_tail (codes "SAFETY:") c l lacks))

pub find_safety-closed :
    (ls : List Text) (rest : Text)
    → AllLack (codes "SAFETY:") ls
    → find_safety (closed_onto ls rest) ≡ find_safety rest
find_safety-closed [] rest lacks = refl
find_safety-closed (l ∷ ls) rest (lack, lacks) =
    find_safety-line l _ lack ∙ find_safety-closed ls rest lacks

starts_with_self : (p rest : Text) → starts_with (p ++ rest) p ≡ true
unfolding starts_with after_prefix
starts_with_self [] rest = refl
starts_with_self (c ∷ p) rest = ground (arith, starts_with_self p rest)

has_text_of_start : (p s : Text) → starts_with s p ≡ true → has_text p s ≡ true
unfolding has_text
has_text_of_start p [] h = h
has_text_of_start p (c ∷ s) h = ground arith

has_text-append_right : (p a b : Text) → has_text p b ≡ true → has_text p (a ++ b) ≡ true
unfolding has_text
has_text-append_right p [] b h = h
has_text-append_right p (c ∷ a) b h = ground (arith, has_text-append_right p a b h)

abbrev pub get_elem? {ℓ} : {A : Type ℓ} → List A → ℕ → Option A
get_elem? [] i = none
get_elem? (x ∷ xs) zero = some x
get_elem? (x ∷ xs) (suc i) = get_elem? xs i

-- A line is found in the text.
pub has_line :
    (ls : List Text) (rest p : Text) (k : ℕ)
    → get_elem? ls k ≡ some p
    → has_text p (closed_onto ls rest) ≡ true
has_line [] rest p k h = cc
has_line (l ∷ ls) rest p zero h =
    subst (λ q. has_text q (closed_onto (l ∷ ls) rest) ≡ true) (some_inj h)
      (has_text_of_start l _ (starts_with_self l (newline ∷ closed_onto ls rest)))
  where
    some_inj : {a b : Text} → some a ≡ some b → a ≡ b
    some_inj e = cc
has_line (l ∷ ls) rest p (suc k) h =
    has_text-append_right p l _ (has_text-append_right p (newline ∷ []) _ (has_line ls rest p k h))

-- By running the search on every line.
pub AllLack-of :
    (p : Text) (ls : List Text) → all (λ l. not (has_text p l)) ls ≡ true → AllLack p ls
AllLack-of p [] h = tt
AllLack-of p (l ∷ ls) h = (ground arith, AllLack-of p ls (ground arith))
