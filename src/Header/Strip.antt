-- ===== src/Header/Strip.antt =====
-- sql_header.py: `strip_sql_comments` and `strip_sql_comments_and_literals`. A pattern's match at a
-- place is given by its length, or is `none`.
pub mod Comments
pub mod Hidden
use postgres_dbre.Prelude.{
  ℕ, zero, suc, ◌+◌, ◌-◌, ◌≡◌, refl, Bool, true, false, not, ◌&&◌, ◌||◌, Option, none, some, List,
  [], ◌∷◌, ◌++◌, leb, nat_beq, length, if◌then◌else◌,
}
use postgres_dbre.Text.{Text, codes, newline, after_prefix}

-- `re.sub`; `skip` characters are still part of the last match, and no match is empty.
unfoldable pub sub : (Text → Option ℕ) → Text → ℕ → Text → Text
sub matches replacement skip [] = []
sub matches replacement (suc skip) (c ∷ s) = sub matches replacement skip s
sub matches replacement zero (c ∷ s) =
    let kept = c ∷ sub matches replacement zero s in
    elim (matches (c ∷ s)) [
      | none ↦ kept
      | some n ↦ replacement ++ sub matches replacement (n - 1) s
    ]

-- Where the first occurrence of `stop` ends, counted from `at`.
abbrev or_end : Option Text → ℕ → Option ℕ → Option ℕ
or_end (some _) end later = some end
or_end none end later = later

unfoldable pub end_of : Text → ℕ → Text → Option ℕ
end_of stop at [] = none
end_of stop at (c ∷ s) =
    let later = end_of stop (at + 1) s in
    or_end (after_prefix stop (c ∷ s)) (at + length stop) later

-- `/\*.*?\*/`
abbrev block_rest : Option Text → Option ℕ
block_rest none = none
block_rest (some s) = end_of (codes "*/") 2 s

unfoldable pub block_comment : Text → Option ℕ
block_comment s = block_rest (after_prefix (codes "/*") s)

-- `--[^\n]*`
unfoldable pub line_length : Text → ℕ
line_length [] = 0
line_length (c ∷ s) = let rest = line_length s in if nat_beq c newline then 0 else suc rest

abbrev line_rest : Option Text → Option ℕ
line_rest none = none
line_rest (some s) = some (2 + line_length s)

unfoldable pub line_comment : Text → Option ℕ
line_comment s = line_rest (after_prefix (codes "--") s)

unfoldable pub strip_sql_comments : Text → Text
strip_sql_comments content =
    sub line_comment (codes " ") 0 (sub block_comment (codes " ") 0 content)

-- `[A-Za-z_]*` and what follows it.
abbrev is_tag_char : ℕ → Bool
is_tag_char c = (leb b'A' c && leb c b'Z') || (leb b'a' c && leb c b'z') || nat_beq c b'_'

unfoldable pub tag_of : Text → Text
tag_of [] = []
tag_of (c ∷ s) = let rest = tag_of s in if is_tag_char c then c ∷ rest else []

-- `\$([A-Za-z_]*)\$.*?\$\1\$`
abbrev dollar_rest : Text → Option Text → Option ℕ
dollar_rest delimiter none = none
dollar_rest delimiter (some s) = end_of delimiter (length delimiter) s

abbrev delimiter_of : Text → Text
delimiter_of s = codes "$" ++ (tag_of s ++ codes "$")

unfoldable pub dollar_quoted : Text → Option ℕ
dollar_quoted [] = none
dollar_quoted (c ∷ s) = dollar_rest (delimiter_of s) (after_prefix (delimiter_of s) (c ∷ s))

-- `(?:[^']|'')*'` from the opening quote on: a quote that is not doubled ends the literal. Where
-- the text ends first, the pattern gives back tokens as far as the last doubled quote, `fallback`.
unfoldable pub quote_end : Option ℕ → ℕ → Text → Option ℕ
quote_end fallback at [] = fallback
quote_end fallback at (c ∷ []) = if nat_beq c b'\'' then some (at + 1) else fallback
quote_end fallback at (c ∷ d ∷ s) =
    let doubled = quote_end (some (at + 1)) (at + 2) s in
    let next = quote_end fallback (at + 1) (d ∷ s) in
    if nat_beq c b'\'' then (if nat_beq d b'\'' then doubled else some (at + 1)) else next

unfoldable pub single_quoted : Text → Option ℕ
single_quoted [] = none
single_quoted (c ∷ s) = if nat_beq c b'\'' then quote_end none 1 s else none

unfoldable pub strip_sql_comments_and_literals : Text → Text
strip_sql_comments_and_literals content =
    sub single_quoted (codes "''") 0 (sub dollar_quoted (codes "''") 0 (strip_sql_comments content))

strip_test :
    strip_sql_comments_and_literals (codes "/* a */ SELECT 'it''s', $x$ DROP $x$; -- end\nDROP")
    ≡ codes "  SELECT '', '';  \nDROP"
unfolding strip_sql_comments_and_literals strip_sql_comments sub block_comment line_comment
    line_length dollar_quoted single_quoted end_of tag_of quote_end after_prefix
strip_test = refl
