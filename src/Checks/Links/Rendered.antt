-- ===== src/Checks/Links/Rendered.antt =====
-- The links that render.py writes, found again by `find_links`.
use postgres_dbre.Prelude.{
  ℕ, ◌≡◌, refl, ap, ◌∙◌, inl, inr, true, false, Bool, Bool-cases, some, List, [], ◌∷◌, ◌++◌, All,
  any, keep_if, arith, nat_beq, nat_eq, list_eq,
}
use mathlib.Core.List.{append_assoc}
use postgres_dbre.Text.{Text, split_on, concat, cons_head}
use postgres_dbre.Render.{label_parts, last_or, related_link}
use postgres_dbre.Checks.Links.{
  span_until, after_target, ends_target, is_closing, match_link, find_links,
}
use postgres_dbre.Checks.Links.Found.{find_links_complete, scan_on}

span_until-stop :
    (stop : ℕ → Bool) (s : Text) (c : ℕ) (rest : Text)
    → any stop s ≡ false
    → stop c ≡ true
    → span_until stop (s ++ c ∷ rest) ≡ (s, c ∷ rest)
unfolding span_until
span_until-stop stop [] c rest h e = rw e
span_until-stop stop (d ∷ s) c rest h e =
    let none_left : any stop s ≡ false = ground arith in
    let here : stop d ≡ false = ground arith in rw (here, span_until-stop stop s c rest none_left e)

-- `[label](target)` is a match with the group `target`.
pub match_link-link :
    (label : Text) (c : ℕ) (target rest : Text)
    → any is_closing label ≡ false
    → any ends_target (c ∷ target) ≡ false
    → match_link (b'[' ∷ (label ++ b']' ∷ b'(' ∷ ((c ∷ target) ++ b')' ∷ rest)))
      ≡ some (c ∷ target, rest)
unfolding match_link after_target
match_link-link label c target rest closed plain = rw (
  span_until-stop is_closing label b']' (b'(' ∷ ((c ∷ target) ++ b')' ∷ rest)) closed refl,
  span_until-stop ends_target (c ∷ target) b')' rest plain refl,
)

-- A text none of whose characters passes the test.
abbrev Lacks : (ℕ → Bool) → Text → Type 0
Lacks p s = any p s ≡ false

cons_head-Lacks :
    (p : ℕ → Bool) (c : ℕ) (pieces : List Text)
    → p c ≡ false
    → All (Lacks p) pieces
    → All (Lacks p) (cons_head c pieces)
cons_head-Lacks p c [] e h = (rw e, tt)
cons_head-Lacks p c (piece ∷ pieces) e (first, h) = (rw (e, first), h)

split_on-Lacks : (p : ℕ → Bool) (sep : ℕ) (s : Text) → Lacks p s → All (Lacks p) (split_on sep s)
unfolding split_on
split_on-Lacks p sep [] h = (refl, tt)
split_on-Lacks p sep (c ∷ s) h =
    let later = split_on-Lacks p sep s (ground arith) in
    elim (Bool-cases (nat_beq c sep)) [
      | inl e ↦ rw e (refl, later)
      | inr e ↦ rw e (cons_head-Lacks p c (split_on sep s) (ground arith) later)
    ]

keep_if-All :
    (P : Text → Type 0) (q : Text → Bool) (xs : List Text) → All P xs → All P (keep_if q xs)
keep_if-All P q [] h = tt
keep_if-All P q (x ∷ xs) (first, h) = elim (Bool-cases (q x)) [
  | inl e ↦ rw e (first, keep_if-All P q xs h)
  | inr e ↦ rw e (keep_if-All P q xs h)
]

last_or-All : (P : Text → Type 0) (d : Text) (xs : List Text) → P d → All P xs → P (last_or d xs)
last_or-All P d [] h all_of = h
last_or-All P d (x ∷ xs) h (first, rest) = last_or-All P x xs first rest

-- The label of a link has no character that the link has not.
label-Lacks : (p : ℕ → Bool) (rel : Text) → Lacks p rel → Lacks p (last_or rel (label_parts rel))
unfolding label_parts
label-Lacks p rel h =
    last_or-All (Lacks p) rel (label_parts rel) h
      (keep_if-All (Lacks p) _ (split_on b'/' rel) (split_on-Lacks p b'/' rel h))

related_link-append :
    (rel rest : Text)
    → related_link rel ++ rest
      ≡ b'[' ∷ (last_or rel (label_parts rel) ++ b']' ∷ b'(' ∷ (rel ++ b')' ∷ rest))
unfolding related_link concat
related_link-append rel rest = simp append_assoc

-- For a relative link that is not empty and has no white space, `)` or `]`: in a text that begins
-- with the link as `related_link` renders it, `find_links` finds the link first, and then what it
-- finds in the text behind it.
pub find_links-related_link :
    (c : ℕ) (rel rest : Text)
    → any ends_target (c ∷ rel) ≡ false
    → any is_closing (c ∷ rel) ≡ false
    → find_links (related_link (c ∷ rel) ++ rest) ≡ (c ∷ rel) ∷ find_links rest
find_links-related_link c rel rest plain closed =
    let label = last_or (c ∷ rel) (label_parts (c ∷ rel)) in
    ap find_links (related_link-append (c ∷ rel) rest)
    ∙ find_links_complete.1 b'[' (label ++ b']' ∷ b'(' ∷ ((c ∷ rel) ++ b')' ∷ rest))
    ∙ ap (scan_on _)
        (match_link-link label c rel rest (label-Lacks is_closing (c ∷ rel) closed) plain)
