-- ===== src/Checks/Sql.antt =====
-- checks.py: `check_sql_headers`, `check_no_placeholders` and `check_no_destructive_statements`.
pub mod Verdicts
pub mod Accepted
pub mod Rendered
pub mod Finished
pub mod Passed
pub mod Patterns
use postgres_dbre.Prelude.{
  ℕ, ◌≡◌, refl, Bool, true, false, not, ◌&&◌, ◌||◌, Option, none, some, List, [], ◌∷◌, ◌++◌, map,
  any, keep_if, contains, is_empty, if◌then◌else◌, ◌==◌, nat_eq, list_eq,
}
use postgres_dbre.Text.{Text, codes, concat, join, starts_with, upper}
use postgres_dbre.Os.{FilePath, Fs, Result, map_ok}
use postgres_dbre.Regex.{
  Regex, seq, boundary, search_in, literal, caseless, spaces, some_spaces, visible, one_of, phrase,
}
use postgres_dbre.Header.{SqlHeader, parse_sql_header}
use postgres_dbre.Header.Strip.{strip_sql_comments_and_literals}
use postgres_dbre.Checks.{
  Issue, Severity, error, warning, rel, when, rglob, read_replaced, collect_issues,
  discover_sql_files,
}

abbrev pub file_issue : Severity → Text → FilePath → Text → Issue
file_issue severity check p message = record {
  severity = severity;
  check = check;
  path = rel p;
  message = message;
}

-- Check 2: the fields and the safety label of the header.
abbrev pub missing_issue : FilePath → List Text → List Issue
missing_issue p [] = []
missing_issue p (f ∷ fs) =
    file_issue error (codes "sql-header") p
      (codes "header missing required field(s): " ++ join (codes ", ") (f ∷ fs))
    ∷ []

abbrev pub label_issue : FilePath → Option Text → Bool → List Issue
label_issue p none recognized =
    file_issue error (codes "sql-header") p (codes "SAFETY field has no value") ∷ []
label_issue p (some label) recognized = when (not recognized) (
    file_issue warning (codes "sql-header") p (
      concat (
        codes "SAFETY value '"
        ∷ label
        ∷ codes "' does not start with a recognized "
        ∷ codes "label (READ ONLY / LOW RISK WRITE / ELEVATED RISK / DESTRUCTIVE)"
        ∷ [])))

unfoldable pub header_issues : FilePath → SqlHeader → List Issue
header_issues p header =
    if not header.found
    then file_issue error (codes "sql-header") p (codes "no leading block-comment header found")
      ∷ []
    else missing_issue p header.missing_fields
      ++ label_issue p header.safety_label header.safety_label_recognized

unfoldable pub check_sql_headers : FilePath → Fs → Result (List Issue)
check_sql_headers root fs =
    collect_issues
      (λ p. map_ok (λ content. header_issues p (parse_sql_header content)) (read_replaced fs p))
      (discover_sql_files root fs)

-- Check 3: the placeholder markers, each with its pattern.
unfoldable pub placeholder_tokens : List (Regex × Text)
placeholder_tokens =
    (literal (codes "REPLACE_ME"), codes "REPLACE_ME")
    ∷ (seq boundary (seq (caseless (codes "PLACEHOLDER")) boundary), codes "PLACEHOLDER")
    ∷ (seq boundary (seq (literal (codes "TODO")) boundary), codes "TODO")
    ∷ (seq boundary (seq (literal (codes "FIXME")) boundary), codes "FIXME")
    ∷ (seq boundary (seq (literal (codes "TBD")) boundary), codes "TBD")
    ∷ (caseless (codes "lorem ipsum"), codes "Lorem ipsum")
    ∷ []

unfoldable pub placeholder_scan_exclude_files : List Text
placeholder_scan_exclude_files =
    codes "CONTRIBUTING.md" ∷ codes "docs/production-safety/README.md" ∷ []

abbrev pub is_excluded : FilePath → FilePath → Bool
is_excluded root p =
    contains placeholder_scan_exclude_files (rel p)
    || starts_with (rel p) (codes "tools/validation")
    || contains (p ++ root) (codes ".git")

abbrev token_issue : FilePath → Text → Issue
token_issue p label =
    file_issue error (codes "no-placeholders") p
      (concat (codes "contains placeholder marker '" ∷ label ∷ codes "'" ∷ []))

abbrev pub token_issues : FilePath → Text → List (Regex × Text) → List Issue
token_issues p content [] = []
token_issues p content ((pattern, label) ∷ tokens) =
    when (search_in pattern content) (token_issue p label) ++ token_issues p content tokens

unfoldable pub check_no_placeholders : FilePath → Fs → Result (List Issue)
check_no_placeholders root fs =
    collect_issues
      (λ p. map_ok (λ content. token_issues p content placeholder_tokens) (read_replaced fs p))
      (keep_if (λ p. not (is_excluded root p)) (rglob (codes ".sql") fs ++ rglob (codes ".md") fs))

-- Check 4: the statements that a read-only script must not hold, each with its pattern's text.
unfoldable pub read_only_forbidden_patterns : List (Regex × Text)
read_only_forbidden_patterns =
    (
      phrase (codes "DROP") (
          one_of (
            codes "TABLE"
            ∷ codes "INDEX"
            ∷ codes "SCHEMA"
            ∷ codes "DATABASE"
            ∷ codes "SEQUENCE"
            ∷ codes "VIEW"
            ∷ codes "FUNCTION"
            ∷ codes "EXTENSION"
            ∷ codes "ROLE"
            ∷ [])),
      codes "\\bDROP\\s+(TABLE|INDEX|SCHEMA|DATABASE|SEQUENCE|VIEW|FUNCTION|EXTENSION|ROLE)\\b",
    )
    ∷ (seq boundary (seq (caseless (codes "TRUNCATE")) boundary), codes "\\bTRUNCATE\\b")
    ∷ (phrase (codes "DELETE") (caseless (codes "FROM")), codes "\\bDELETE\\s+FROM\\b")
    ∷ (phrase (codes "INSERT") (caseless (codes "INTO")), codes "\\bINSERT\\s+INTO\\b")
    ∷ (
      phrase (codes "UPDATE") (seq visible (seq spaces (caseless (codes "SET")))),
      codes "\\bUPDATE\\s+\\S+\\s+SET\\b",
    )
    ∷ (
      phrase (codes "ALTER") (
          one_of (
            codes "TABLE"
            ∷ codes "SYSTEM"
            ∷ codes "DATABASE"
            ∷ codes "INDEX"
            ∷ codes "SEQUENCE"
            ∷ [])),
      codes "\\bALTER\\s+(TABLE|SYSTEM|DATABASE|INDEX|SEQUENCE)\\b",
    )
    ∷ (phrase (codes "VACUUM") (caseless (codes "FULL")), codes "\\bVACUUM\\s+FULL\\b")
    ∷ (
      phrase (codes "CREATE") (
          one_of (
            codes "TABLE"
            ∷ codes "INDEX"
            ∷ codes "EXTENSION"
            ∷ codes "SEQUENCE"
            ∷ codes "VIEW"
            ∷ [])),
      codes "\\bCREATE\\s+(TABLE|INDEX|EXTENSION|SEQUENCE|VIEW)\\b",
    )
    ∷ (
      seq boundary
          (seq (caseless (codes "pg_terminate_backend")) (seq some_spaces (literal (codes "(")))),
      codes "\\bpg_terminate_backend\\s*\\(",
    )
    ∷ (
      seq boundary
          (seq (caseless (codes "pg_cancel_backend")) (seq some_spaces (literal (codes "(")))),
      codes "\\bpg_cancel_backend\\s*\\(",
    )
    ∷ []

unfoldable pub create_extension_re : Regex
create_extension_re = phrase (codes "CREATE") (caseless (codes "EXTENSION"))

abbrev destructive_issue : FilePath → Text → Issue
destructive_issue = file_issue error (codes "no-destructive-statements")

unfoldable pub forbidden_issues : FilePath → Text → List (Regex × Text) → List Issue
forbidden_issues p body [] = []
forbidden_issues p body ((pattern, shown) ∷ more) =
    when (search_in pattern body) (
      destructive_issue p (
        concat (
          codes "declares SAFETY: READ ONLY but body matches forbidden pattern "
          ∷ codes "'"
          ∷ shown
          ∷ codes "'"
          ∷ [])))
    ++ forbidden_issues p body more

-- `bool(label) and label.upper().startswith("READ ONLY")`
unfoldable pub declared_read_only : Option Text → Bool
declared_read_only none = false
declared_read_only (some label) =
    not (is_empty label) && starts_with (upper label) (codes "READ ONLY")

unfoldable pub destructive_issues : FilePath → Text → List Issue
destructive_issues p content =
    let body = strip_sql_comments_and_literals content in
    when (search_in create_extension_re body) (
      destructive_issue p (
        concat (
          codes "contains an executable CREATE EXTENSION statement; extension setup "
          ∷ codes "must be documented (docs/prerequisites/README.md), not auto-run"
          ∷ [])))
    ++ (if declared_read_only (parse_sql_header content).safety_label
        then forbidden_issues p body read_only_forbidden_patterns
        else [])

unfoldable pub check_no_destructive_statements : FilePath → Fs → Result (List Issue)
check_no_destructive_statements root fs =
    collect_issues (λ p. map_ok (destructive_issues p) (read_replaced fs p))
      (discover_sql_files root fs)
