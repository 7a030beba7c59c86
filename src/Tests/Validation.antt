-- ===== src/Tests/Validation.antt =====
-- The validator's theorems at small inputs.
use postgres_dbre.Prelude.{
  ℕ, ◌≡◌, ◌↔◌, refl, Bool, true, false, none, some, List, [], ◌∷◌, All, any, contains, length,
  nat_eq, list_eq,
}
use postgres_dbre.Text.{
  Text, codes, strip, is_space, starts_with, has_text, after_prefix, upper, join, concat,
}
use postgres_dbre.Os.{ok}
use postgres_dbre.Model.{Script, Workflow, filename}
use postgres_dbre.Helpers.{sql_script, sql_script_defaults, SqlOptions}
use postgres_dbre.Render.{render_sql_file, render_sql_header, sql_header_lines, rule}
use postgres_dbre.Regex.{search_in}
use postgres_dbre.Header.{
  parse_sql_header, header_block, until, known_safety_labels, find_safety, value_after, first_line,
  missing_from, required_header_fields,
}
use postgres_dbre.Header.Find.{AllLack-of, closed_onto}
use postgres_dbre.Header.RoundTrip.{
  IsPlain, inner_lines, lines_above, parse_sql_header-render_sql_file, empty_safety_label,
}
use postgres_dbre.Header.Strip.{
  strip_sql_comments, strip_sql_comments_and_literals, sub, block_comment, line_comment,
  line_length, dollar_quoted, single_quoted, end_of, tag_of, quote_end,
}
use postgres_dbre.Header.Strip.Comments.{strip_sql_comments-no_dashes}
use postgres_dbre.Checks.{Issue, warning}
use postgres_dbre.Checks.Sql.{
  read_only_forbidden_patterns, create_extension_re, declared_read_only, destructive_issues,
  forbidden_issues,
}
use postgres_dbre.Checks.Filenames.{number_issues, sort_numbers, range}
use postgres_dbre.Checks.Filenames.Sequence.{number_issues_none_iff}
use postgres_dbre.Checks.Completeness.{category_issues}
use postgres_dbre.Checks.Completeness.Exact.{category_issues_none_iff}
use postgres_dbre.Validate.{Check, Arguments, Outcome, main}
use postgres_dbre.Validate.Quiet.{IsQuiet, is_selected, exit_code_iff}
use postgres_dbre.Validate.Exit.{with_printing, code_of, printing_keeps_code}
use postgres_dbre.SqlBlocks.ReadOnly.{IsReadOnly, sql_bodies, sql_bodies-IsReadOnly}

abbrev options : SqlOptions
options = record sql_script_defaults { related_scripts = codes "02_b.sql" }

-- A read-only script and its workflow.
unfoldable pub script : Script
unfolding sql_script
script =
    sql_script (codes "01") (codes "01_a") (codes "Shows sessions.") (codes "SELECT 1;\n")
      (codes "Read the count.") options

unfoldable pub workflow : Workflow
workflow = record {
  category_slug = codes "connections";
  category_title = codes "Connection Management";
  slug = codes "connection-spikes";
  title = codes "Connection Spikes";
  summary = codes "A spike.";
  symptoms = [];
  business_impact = [];
  root_causes = [];
  investigation_strategy = [];
  prerequisites = [];
  interpretation_guide = [];
  remediation_immediate = [];
  remediation_short_term = [];
  remediation_long_term = [];
  production_safety = [];
  escalation_criteria = [];
  related_issues = [];
  scripts = [];
  aurora_notes = [];
  execution_guidance = [];
  expected_output_guidance = [];
  severe_incident_guidance = [];
}

unlabelled_script : Script
unfolding script
unlabelled_script = record script { safety = [] }

-- What a search in the lines of a header calls.
search_lines : Text → Text → Bool
unfolding inner_lines lines_above sql_header_lines rule filename concat has_text starts_with
    after_prefix list_eq nat_eq script unlabelled_script workflow
search_lines = has_text

pub script-IsPlain : IsPlain workflow script
unfolding search_lines is_space
script-IsPlain = record {
  closed = AllLack-of (codes "*/") (inner_lines workflow script) refl;
  unlabelled = AllLack-of (codes "SAFETY:") (lines_above workflow script) refl;
  head = b'R';
  tail = codes "EAD ONLY";
  label = refl;
  visible = refl;
  single = (refl, (refl, (refl, (refl, (refl, (refl, (refl, (refl, (refl, tt)))))))));
}

parse_sql_header-render_sql_file_example :
    parse_sql_header (render_sql_file workflow script) ≡ record {
      found = true;
      raw_text = closed_onto (inner_lines workflow script) [];
      missing_fields = [];
      safety_label = some (strip is_space script.safety);
      safety_label_recognized =
          any (starts_with (upper (strip is_space script.safety))) known_safety_labels;
    }
parse_sql_header-render_sql_file_example =
    parse_sql_header-render_sql_file workflow script script-IsPlain

empty_safety_label_example :
    (parse_sql_header (render_sql_file workflow unlabelled_script)).safety_label
    ≡ some (codes "EXPECTED IMPACT:")
unfolding search_lines
empty_safety_label_example =
    empty_safety_label workflow unlabelled_script refl
      (AllLack-of (codes "*/") (inner_lines workflow unlabelled_script) refl)
      (AllLack-of (codes "SAFETY:") (lines_above workflow unlabelled_script) refl)

strip_sql_comments-no_dashes_example :
    has_text (codes "--") (strip_sql_comments (codes "a --/* b\n- -- c */-")) ≡ false
strip_sql_comments-no_dashes_example = strip_sql_comments-no_dashes (codes "a --/* b\n- -- c */-")

-- What the check of a rendered file runs.
unfoldable pub check_file : Text → List Issue
unfolding destructive_issues forbidden_issues create_extension_re read_only_forbidden_patterns
    search_in strip_sql_comments_and_literals strip_sql_comments sub block_comment line_comment
    line_length dollar_quoted single_quoted end_of tag_of quote_end parse_sql_header header_block
    until find_safety value_after first_line missing_from required_header_fields declared_read_only
    render_sql_file render_sql_header search_lines is_space upper strip join
check_file = destructive_issues []

number_issues_none_iff_example :
    (number_issues [] (3 ∷ 1 ∷ 2 ∷ []) ≡ [])
    ↔ (sort_numbers (3 ∷ 1 ∷ 2 ∷ []) ≡ range 1 (length {A = ℕ} (3 ∷ 1 ∷ 2 ∷ [])))
number_issues_none_iff_example = number_issues_none_iff [] (3 ∷ 1 ∷ 2 ∷ [])

category_issues_none_iff_example :
    (category_issues (codes "c") (codes "a" ∷ codes "b" ∷ []) (codes "b" ∷ codes "a" ∷ []) ≡ []) ↔ (
      (w : Text)
      → contains (codes "a" ∷ codes "b" ∷ []) w ≡ contains (codes "b" ∷ codes "a" ∷ []) w)
category_issues_none_iff_example =
    category_issues_none_iff (codes "c") (codes "a" ∷ codes "b" ∷ []) (codes "b" ∷ codes "a" ∷ [])

abbrev one_warning : Issue
one_warning = record { severity = warning; check = codes "c"; path = []; message = codes "m" }

abbrev checks : List Check
checks = (codes "c", λ fs. ok (one_warning ∷ [])) ∷ []

abbrev arguments : Arguments
arguments = record { list_checks = false; only_checks = none; only_errors = false; quiet = true }

exit_code_iff_example :
    ((o : Outcome) × (main checks arguments (codes "r") [] ≡ ok o) × (o.code ≡ 0))
    ↔ All (λ check. is_selected [] check.0 ≡ true → IsQuiet [] check) checks
exit_code_iff_example = exit_code_iff checks arguments (codes "r") [] refl refl

printing_keeps_code_example :
    code_of (main checks (with_printing arguments true false) (codes "r") [])
    ≡ code_of (main checks arguments (codes "r") [])
printing_keeps_code_example = printing_keeps_code checks arguments true false (codes "r") []

sql_bodies-IsReadOnly_example : All (All (IsReadOnly [])) sql_bodies
sql_bodies-IsReadOnly_example = sql_bodies-IsReadOnly []
