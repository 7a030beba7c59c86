-- ===== src/Checks/RepositoryMap/Blank.antt =====
-- A branch of the repository map with no entry behind it.
use mathlib.Core.List.{reverse, reverse-append}
use postgres_dbre.Prelude.{
  ℕ, ◌≡◌, refl, ◌⊎◌, inl, inr, Bool, true, false, Bool-cases, List, [], ◌∷◌, ◌++◌, all, is_empty,
  arith,
}
use postgres_dbre.Text.{Text, is_space, lstrip, rstrip, strip, starts_with, after_prefix}
use postgres_dbre.Os.{Fs, ok, err, index_error}
use postgres_dbre.Checks.{Issue}
use postgres_dbre.Checks.Links.{span_until}
use postgres_dbre.Checks.RepositoryMap.{
  starts_branch, is_inner, entry_of, first_or_raise, of_entry, synthetic_issue, map_line, map_lines,
}

lstrip_blank : (s : Text) → all is_space s ≡ true → lstrip is_space s ≡ []
unfolding lstrip
lstrip_blank [] h = refl
lstrip_blank (c ∷ s) h =
    let here : is_space c ≡ true = ground arith in rw here (lstrip_blank s (ground arith))

-- A text that ends with a character that is kept is not stripped to nothing.
lstrip_last :
    (p : ℕ → Bool) (s : Text) (c : ℕ) → p c ≡ false → is_empty (lstrip p (s ++ c ∷ [])) ≡ false
unfolding lstrip
lstrip_last p [] c e = rw e
lstrip_last p (d ∷ s) c e = elim (Bool-cases (p d)) [
  | inl f ↦ rw f (lstrip_last p s c e)
  | inr f ↦ rw f
]

reverse_empty : (s : Text) → is_empty (reverse s) ≡ is_empty s
reverse_empty [] = refl
reverse_empty (c ∷ s) = rw (reverse-append (c ∷ []) s) (append_last (reverse s) c)
  where
    append_last : (s : Text) (c : ℕ) → is_empty (s ++ c ∷ []) ≡ false
    append_last [] c = refl
    append_last (d ∷ s) c = refl

strip_first : (c : ℕ) (s : Text) → is_space c ≡ false → is_empty (strip is_space (c ∷ s)) ≡ false
unfolding strip rstrip
strip_first c s e =
    rw (lstrip_kept c s e, reverse_empty, reverse-append (c ∷ []) s)
      (lstrip_last is_space (reverse s) c e)
  where
    lstrip_kept : (c : ℕ) (s : Text) → is_space c ≡ false → lstrip is_space (c ∷ s) ≡ c ∷ s
    lstrip_kept c s e = rw e

-- `map_line` on a branch, drawn in one of the two ways, with nothing but white space behind it.
entry_of_blank :
    (a : ℕ) (s : Text)
    → all is_space s ≡ true
    → entry_of (a ∷ 0x2500 ∷ 0x2500 ∷ b' ' ∷ s) ≡ err index_error
unfolding entry_of
entry_of_blank a s h = rw (lstrip_blank s h) (unfold span_until in refl)

abbrev pub IsCorner : ℕ → Type 0
IsCorner a = (a ≡ 0x251C) ⊎ (a ≡ 0x2514)

blank_branch :
    (outside : Text → Bool) (fs : Fs) (s : Text)
    → all is_space s ≡ true
    → (a : ℕ) → IsCorner a
    → map_line outside fs (a ∷ 0x2500 ∷ 0x2500 ∷ b' ' ∷ s) ≡ err index_error
unfolding map_line is_inner starts_branch starts_with after_prefix
blank_branch outside fs s h a (inl e) =
    let visible : is_space a ≡ false = rw e (unfold is_space in refl) in
    rw (strip_first a (0x2500 ∷ 0x2500 ∷ b' ' ∷ s) visible, entry_of_blank a s h) (rw e refl)
blank_branch outside fs s h a (inr e) =
    let visible : is_space a ≡ false = rw e (unfold is_space in refl) in
    rw (strip_first a (0x2500 ∷ 0x2500 ∷ b' ' ∷ s) visible, entry_of_blank a s h) (rw e refl)

module _ (outside : Text → Bool) (fs : Fs) where
  first_or_raise_cases :
      (word : Text)
      → ((e : Text) × (first_or_raise word ≡ ok e)) ⊎ (first_or_raise word ≡ err index_error)
  first_or_raise_cases [] = inr refl
  first_or_raise_cases (c ∷ word) = inl (c ∷ word, refl)

  entry_of_cases :
      (line : Text) → ((e : Text) × (entry_of line ≡ ok e)) ⊎ (entry_of line ≡ err index_error)
  unfolding entry_of
  entry_of_cases line = first_or_raise_cases _

  -- Every line returns, or raises this one exception.
  map_line_cases :
      (line : Text)
      → ((r : List Issue × List Text) × (map_line outside fs line ≡ ok r))
        ⊎ (map_line outside fs line ≡ err index_error)
  unfolding map_line
  map_line_cases line = elim (Bool-cases (is_inner line)) [
    | inl e ↦ inl (([], []), rw e)
    | inr e ↦ elim (Bool-cases (starts_branch line)) [
      | inr b ↦ inl ((synthetic_issue outside fs line ∷ [], []), rw (e, b) refl)
      | inl b ↦ elim (entry_of_cases line) [
        | inl (entry, read) ↦ inl (of_entry outside fs entry, rw (e, b, read) refl)
        | inr raised ↦ inr (rw (e, b, raised) refl)
      ]
    ]
  ]

  -- A map with a branch behind which there is nothing but white space, whatever lines stand before
  -- and after it: the check of its lines raises IndexError and reports nothing.
  pub blank_branch_raises :
      (before : List Text) (corner : ℕ) (blank : Text) (after : List Text)
      → IsCorner corner
      → all is_space blank ≡ true
      → map_lines outside fs (before ++ (corner ∷ 0x2500 ∷ 0x2500 ∷ b' ' ∷ blank) ∷ after)
        ≡ err index_error
  unfolding map_lines
  blank_branch_raises [] corner blank after drawn h =
      rw (blank_branch outside fs blank h corner drawn) refl
  blank_branch_raises (line ∷ before) corner blank after drawn h = elim (map_line_cases line) [
    | inl (r, e) ↦ rw (e, blank_branch_raises before corner blank after drawn h) refl
    | inr e ↦ rw e refl
  ]
