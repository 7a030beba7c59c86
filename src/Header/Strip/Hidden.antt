-- ===== src/Header/Strip/Hidden.antt =====
-- What `strip_sql_comments_and_literals` hides behind two dashes in a literal.
use postgres_dbre.Prelude.{
  ℕ, suc, ◌+◌, ◌-◌, ◌≡◌, refl, sym, ap, ◌∙◌, false, none, [], ◌∷◌, ◌++◌, arith, Option-cases,
  Bool-cases, inl, inr, contains, nat_eq, nat_beq, nat_beq_iff,
}
use postgres_dbre.Text.{Text, codes, newline, after_prefix, starts_with, has_text, is_some}
use postgres_dbre.Header.Strip.{
  sub, block_comment, block_rest, line_comment, line_length, strip_sql_comments,
  strip_sql_comments_and_literals, dollar_quoted, single_quoted, end_of, tag_of, quote_end,
}
use postgres_dbre.Header.Strip.Comments.{sub-unmatched, sub-matched}

-- A text that opens no block comment is kept by their removal.
block_comment-none : (s : Text) → starts_with s (codes "/*") ≡ false → block_comment s ≡ none
unfolding block_comment starts_with
block_comment-none s h = elim (Option-cases (after_prefix (codes "/*") s)) [
  | inl e ↦ ap block_rest e
  | inr (rest, e) ↦ cc (sym (ap is_some e) ∙ h)
]

sub-block_comment :
    (s : Text) → has_text (codes "/*") s ≡ false → sub block_comment (codes " ") 0 s ≡ s
unfolding has_text
sub-block_comment [] h = unfold sub in refl
sub-block_comment (c ∷ s) h =
    sub-unmatched block_comment (codes " ") c s (block_comment-none (c ∷ s) (ground arith))
    ∙ ap (λ t. c ∷ t) (sub-block_comment s (ground arith))

-- The rest of a match that ends with the text is dropped.
sub-rest :
    (s : Text) → contains s newline ≡ false → sub line_comment (codes " ") (line_length s) s ≡ []
unfolding sub line_length
sub-rest [] h = refl
sub-rest (c ∷ s) h = elim (Bool-cases (nat_beq c newline)) [
  | inl e ↦ let same = (nat_beq_iff c newline).0 e in ground arith
  | inr e ↦ rw e (sub-rest s (ground arith))
]

sub-skip :
    (n c : ℕ) (s : Text)
    → sub line_comment (codes " ") (suc n) (c ∷ s) ≡ sub line_comment (codes " ") n s
unfolding sub
sub-skip n c s = refl

-- A comment that runs to the end of the text.
sub-line_comment :
    (s : Text)
    → contains s newline ≡ false
    → sub line_comment (codes " ") 0 (codes "--" ++ s) ≡ codes " "
unfolding line_comment after_prefix
sub-line_comment s h =
    let skipped : 2 + line_length s - 1 ≡ suc (line_length s) = omega arith in
    sub-matched line_comment (codes " ") b'-' (b'-' ∷ s) refl
    ∙ ap (λ t. b' ' ∷ t)
        (ap (λ n. sub line_comment (codes " ") n (b'-' ∷ s)) skipped
          ∙ sub-skip (line_length s) b'-' s
          ∙ sub-rest s h)

line_removed :
    (s : Text)
    → contains s newline ≡ false
    → sub line_comment (codes " ") 0 (codes "SELECT '--'; " ++ s) ≡ codes "SELECT ' "
unfolding sub line_comment after_prefix
line_removed s h =
    ap (λ t. codes "SELECT '" ++ t) (sub-line_comment (codes "'; " ++ s) (ground arith))

literals_removed : Text → Text
unfolding sub dollar_quoted single_quoted end_of tag_of quote_end after_prefix
literals_removed t = sub single_quoted (codes "''") 0 (sub dollar_quoted (codes "''") 0 t)

-- For a text without a newline that follows the statement `SELECT '--';` on its line, and no block
-- comment opened there: without comments and literals the line is `SELECT ' ` alone, whatever
-- statements the text holds.
pub hidden_after_dashes :
    (s : Text)
    → contains s newline ≡ false
    → has_text (codes "/*") (codes "SELECT '--'; " ++ s) ≡ false
    → strip_sql_comments_and_literals (codes "SELECT '--'; " ++ s) ≡ codes "SELECT ' "
unfolding strip_sql_comments_and_literals strip_sql_comments literals_removed
hidden_after_dashes s one_line unopened = ap literals_removed (
    ap (sub line_comment (codes " ") 0) (sub-block_comment (codes "SELECT '--'; " ++ s) unopened)
    ∙ line_removed s one_line)
