-- ===== src/Header/RoundTrip.antt =====
-- The header that render.py writes, read back by sql_header.py.
use postgres_dbre.Prelude.{
  ℕ, zero, suc, ◌≡◌, refl, ap, ◌∙◌, Bool, true, false, not, ◌||◌, some, List, [], ◌∷◌, ◌++◌,
  nat_beq, All, keep_if, any,
}
use postgres_dbre.Text.{
  Text, codes, newline, after_prefix, is_space, lstrip, join, strip, has_text, starts_with, upper,
}
use postgres_dbre.Model.{Script, Workflow}
use postgres_dbre.Render.{is_newline, sql_header_lines, render_sql_header, render_sql_file}
use postgres_dbre.Header.{
  until, header_block, before_of, find_safety, value_after, first_line, missing_from,
  required_header_fields, parse_sql_header, known_safety_labels, of_block,
}
use postgres_dbre.Header.Find.{
  closed_onto, AllLack, closed_onto-append, until-closed, find_safety-closed, has_line, get_elem?,
}

abbrev pub init : List Text → List Text
init [] = []
init (x ∷ []) = []
init (x ∷ y ∷ ys) = x ∷ init (y ∷ ys)

abbrev pub rest_of : List Text → List Text
rest_of [] = []
rest_of (x ∷ xs) = xs

-- The lines of the header between its delimiters; the first is what follows `/*` on its line.
unfoldable pub inner_lines : Workflow → Script → List Text
inner_lines wf s = [] ∷ init (rest_of (sql_header_lines wf s))

render_sql_file_lines :
    (wf : Workflow) (s : Script)
    → render_sql_file wf s
      ≡ codes "/*"
        ++ closed_onto
            (inner_lines wf s)
            (codes "*/" ++ (codes "\n\n" ++ (strip is_newline s.body ++ codes "\n")))
unfolding render_sql_file render_sql_header sql_header_lines inner_lines join
render_sql_file_lines wf s =
    ap (λ t. 47 ∷ 42 ∷ t) (closed_onto-append (inner_lines wf s) (codes "*/") _)

header_block_start : (t : Text) → header_block (codes "/*" ++ t) ≡ before_of (until (codes "*/") t)
unfolding header_block lstrip after_prefix is_space
header_block_start t = refl

header_block_lem :
    (wf : Workflow) (s : Script)
    → AllLack (codes "*/") (inner_lines wf s)
    → header_block (render_sql_file wf s) ≡ some (closed_onto (inner_lines wf s) [])
header_block_lem wf s lacks =
    ap header_block (render_sql_file_lines wf s)
    ∙ header_block_start _
    ∙ ap before_of (until-closed (inner_lines wf s) _ lacks)

keep_if-none : (p : Text → Bool) (xs : List Text) → All (λ x. p x ≡ false) xs → keep_if p xs ≡ []
keep_if-none p [] h = refl
keep_if-none p (x ∷ xs) (e, h) = rw (e, keep_if-none p xs h)

missing_from_lem :
    (wf : Workflow) (s : Script) → missing_from (closed_onto (inner_lines wf s) []) ≡ []
unfolding missing_from required_header_fields inner_lines sql_header_lines
missing_from_lem wf s =
    keep_if-none (λ f. not (has_text f (closed_onto (inner_lines wf s) []))) required_header_fields
      (
        at 2 refl,
        (
          at 5 refl,
          (
            at 8 refl,
            (
              at 11 refl,
              (
                at 14 refl,
                (
                  at 17 refl,
                  (at 20 refl, (at 23 refl, (at 26 refl, (at 29 refl, (at 32 refl, tt))))),
                ),
              ),
            ),
          ),
        ),
      )
  where
    at :
        {p : Text} (k : ℕ)
        → get_elem? (inner_lines wf s) k ≡ some p
        → not (has_text p (closed_onto (inner_lines wf s) [])) ≡ false
    at {p} k e = rw (has_line (inner_lines wf s) [] p k e)

abbrev pub first_lines : ℕ → List Text → List Text
first_lines zero ls = []
first_lines (suc n) [] = []
first_lines (suc n) (l ∷ ls) = l ∷ first_lines n ls

abbrev later_lines : ℕ → List Text → List Text
later_lines zero ls = ls
later_lines (suc n) [] = []
later_lines (suc n) (l ∷ ls) = later_lines n ls

-- The lines of the header above the one that reads `SAFETY:`.
unfoldable pub lines_above : Workflow → Script → List Text
lines_above wf s = first_lines 14 (inner_lines wf s)

-- No `\r` and no newline.
abbrev pub HasOneLine : Text → Type 0
HasOneLine = All (λ c. (nat_beq c b'\r' || nat_beq c newline) ≡ false)

first_line-line : (l rest : Text) → HasOneLine l → first_line (l ++ (newline ∷ rest)) ≡ l
unfolding first_line
first_line-line [] rest one = refl
first_line-line (c ∷ l) rest (e, one) = rw (e, first_line-line l rest one)

newline-is_space : is_space newline ≡ true
unfolding is_space
newline-is_space = refl

-- The value under the keyword, for one that begins with a visible character and is one line.
value_after-line :
    (c : ℕ) (l rest : Text)
    → is_space c ≡ false
    → HasOneLine (c ∷ l)
    → value_after false false (newline ∷ (c ∷ l ++ (newline ∷ rest)))
      ≡ some (strip is_space (c ∷ l))
unfolding value_after
value_after-line c l rest visible one =
    rw (newline-is_space, visible)
      (ap (λ t. some (strip is_space t)) (first_line-line (c ∷ l) rest one))

find_safety_at :
    (t value : Text)
    → value_after false false t ≡ some value
    → find_safety (codes "SAFETY:" ++ t) ≡ some value
unfolding find_safety after_prefix
find_safety_at t value h = rw h

header_text-eq :
    (wf : Workflow) (s : Script)
    → closed_onto (inner_lines wf s) []
      ≡ closed_onto (lines_above wf s) (
          codes "SAFETY:"
          ++ (newline
              ∷ (s.safety ++ (newline ∷ closed_onto (later_lines 16 (inner_lines wf s)) []))))
unfolding inner_lines lines_above sql_header_lines
header_text-eq wf s = refl

-- What the header's fields must be for it to be read back: no line ends the comment, no line above
-- the safety label holds its keyword, and the label is one line that begins with a visible
-- character `head`.
pub record IsPlain (wf : Workflow) (s : Script) : Type 0 where
  pub closed : AllLack (codes "*/") (inner_lines wf s)
  pub unlabelled : AllLack (codes "SAFETY:") (lines_above wf s)
  pub head : ℕ
  pub tail : Text
  pub label : s.safety ≡ head ∷ tail
  pub visible : is_space head ≡ false
  pub single : HasOneLine (head ∷ tail)

find_safety_lem :
    (wf : Workflow) (s : Script)
    → IsPlain wf s
    → find_safety (closed_onto (inner_lines wf s) []) ≡ some (strip is_space s.safety)
find_safety_lem wf s plain =
    ap find_safety (header_text-eq wf s)
    ∙ find_safety-closed (lines_above wf s) _ plain.unlabelled
    ∙ find_safety_at _ (strip is_space s.safety)
        (rw plain.label (value_after-line plain.head plain.tail _ plain.visible plain.single))

-- For a script and workflow with plain fields (no line of the header holds `*/`, none above the
-- safety field holds `SAFETY:`, and the safety text is one line that begins with no white space),
-- the header of the rendered SQL file is read back: it is found, no required field is missing, and
-- the safety label is the script's, stripped of white space, and recognized exactly if its upper
-- case begins with a known label.
pub parse_sql_header-render_sql_file :
    (wf : Workflow) (s : Script)
    → IsPlain wf s
    → parse_sql_header (render_sql_file wf s) ≡ record {
      found = true;
      raw_text = closed_onto (inner_lines wf s) [];
      missing_fields = [];
      safety_label = some (strip is_space s.safety);
      safety_label_recognized =
          any (starts_with (upper (strip is_space s.safety))) known_safety_labels;
    }
unfolding parse_sql_header
parse_sql_header-render_sql_file wf s plain =
    ap of_block (header_block_lem wf s plain.closed)
    ∙ rw (missing_from_lem wf s, find_safety_lem wf s plain)

next_keyword :
    (rest : Text)
    → value_after false false (codes "\n\n\nEXPECTED IMPACT:" ++ (newline ∷ rest))
      ≡ some (codes "EXPECTED IMPACT:")
unfolding value_after is_space first_line strip
next_keyword rest = refl

-- The rendered SQL file of a script with an empty safety text is read with the next keyword of the
-- header, `EXPECTED IMPACT:`, as its label, if no line of the header holds `*/` and none above the
-- safety field holds `SAFETY:`.
pub empty_safety_label :
    (wf : Workflow) (s : Script)
    → s.safety ≡ []
    → AllLack (codes "*/") (inner_lines wf s)
    → AllLack (codes "SAFETY:") (lines_above wf s)
    → (parse_sql_header (render_sql_file wf s)).safety_label ≡ some (codes "EXPECTED IMPACT:")
unfolding parse_sql_header inner_lines sql_header_lines
empty_safety_label wf s empty closed unlabelled =
    ap (λ b. (of_block b).safety_label) (header_block_lem wf s closed)
    ∙ ap find_safety (header_text-eq wf s)
    ∙ find_safety-closed (lines_above wf s) _ unlabelled
    ∙ find_safety_at _ (codes "EXPECTED IMPACT:") (rw empty (next_keyword _))
