-- ===== src/Header/Strip/Comments.antt =====
-- What `strip_sql_comments` leaves.
use postgres_dbre.Prelude.{
  ℕ, zero, suc, ◌-◌, ◌≡◌, refl, sym, ap, ◌∙◌, true, false, Option, none, some, [], ◌∷◌, ◌++◌, arith,
  Option-cases, inl, inr,
}
use postgres_dbre.Text.{Text, codes, after_prefix, starts_with, has_text, is_some}
use postgres_dbre.Header.Strip.{sub, block_comment, line_comment, strip_sql_comments, line_rest}

-- Two dashes at the start.
abbrev dashes : Text
dashes = codes "--"

line_comment-none :
    (c : ℕ) (s : Text) → line_comment (c ∷ s) ≡ none → starts_with (c ∷ s) dashes ≡ false
unfolding line_comment starts_with
line_comment-none c s h = elim (Option-cases (after_prefix dashes (c ∷ s))) [
  | inl e ↦ ap is_some e
  | inr (rest, e) ↦ cc (sym (ap line_rest e) ∙ h)
]

module _ (matches : Text → Option ℕ) (replacement : Text) (c : ℕ) (s : Text) where
  pub sub-unmatched :
      matches (c ∷ s) ≡ none → sub matches replacement 0 (c ∷ s) ≡ c ∷ sub matches replacement 0 s
  unfolding sub
  sub-unmatched e = rw (e, sub)

  pub sub-matched :
      {n : ℕ}
      → matches (c ∷ s) ≡ some n
      → sub matches replacement 0 (c ∷ s) ≡ replacement ++ sub matches replacement (n - 1) s
  unfolding sub
  sub-matched e = rw (e, sub)

has_text_cons :
    (c : ℕ) (x : Text)
    → starts_with (c ∷ x) dashes ≡ false
    → has_text dashes x ≡ false
    → has_text dashes (c ∷ x) ≡ false
unfolding has_text
has_text_cons c x h k = rw (h, k)

-- Where the result starts with a dash, so does the text.
sub-dash :
    (s : Text)
    → starts_with (sub line_comment (codes " ") 0 s) (codes "-") ≡ true
    → starts_with s (codes "-") ≡ true
unfolding starts_with after_prefix
sub-dash [] h = unfold sub in h
sub-dash (c ∷ s) h = elim (Option-cases (line_comment (c ∷ s))) [
  | inl e ↦
      let shown : starts_with (c ∷ sub line_comment (codes " ") 0 s) (codes "-") ≡ true =
        rw (sub-unmatched line_comment (codes " ") c s e) at h in
      ground arith
  | inr (n, e) ↦ cc (rw (sub-matched line_comment (codes " ") c s e) at h)
]

-- Whether a text starts with two dashes is decided by its first character and by the next.
dashes-cons :
    (c : ℕ) (x s : Text)
    → (starts_with x (codes "-") ≡ true → starts_with s (codes "-") ≡ true)
    → starts_with (c ∷ s) dashes ≡ false
    → starts_with (c ∷ x) dashes ≡ false
unfolding starts_with after_prefix
dashes-cons c [] s keep h = ground arith
dashes-cons c (d ∷ x) [] keep h = ground arith
dashes-cons c (d ∷ x) (e ∷ s) keep h = ground arith

sub-no_dashes :
    (skip : ℕ) (s : Text) → has_text dashes (sub line_comment (codes " ") skip s) ≡ false
unfolding sub
sub-no_dashes skip [] = unfold has_text starts_with after_prefix in refl
sub-no_dashes (suc skip) (c ∷ s) = sub-no_dashes skip s
sub-no_dashes zero (c ∷ s) = elim (Option-cases (line_comment (c ∷ s))) [
  | inl e ↦ rw (sub-unmatched line_comment (codes " ") c s e) (
      has_text_cons c _ (dashes-cons c _ s (sub-dash s) (line_comment-none c s e))
        (sub-no_dashes zero s))
  | inr (n, e) ↦
      rw (sub-matched line_comment (codes " ") c s e)
        (has_text_cons b' ' _ (unfold starts_with after_prefix in refl) (sub-no_dashes (n - 1) s))
]

-- Nothing that `strip_sql_comments` returns holds two dashes in a row: no line comment is left, and
-- none arises from what the removal joins.
pub strip_sql_comments-no_dashes :
    (content : Text) → has_text (codes "--") (strip_sql_comments content) ≡ false
unfolding strip_sql_comments
strip_sql_comments-no_dashes content = sub-no_dashes 0 (sub block_comment (codes " ") 0 content)
