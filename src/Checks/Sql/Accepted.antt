-- ===== src/Checks/Sql/Accepted.antt =====
-- What the silence of `check_no_destructive_statements` means for the tree.
use postgres_dbre.Prelude.{◌≡◌, ◌↔◌, ap, ◌∙◌, true, false, [], All}
use postgres_dbre.Text.{Text}
use postgres_dbre.Os.{FilePath, Fs, ok, map_ok, map_ok-ok}
use postgres_dbre.Regex.{search_in}
use postgres_dbre.Header.{parse_sql_header}
use postgres_dbre.Header.Strip.{strip_sql_comments_and_literals}
use postgres_dbre.Checks.{read_replaced, discover_sql_files}
use postgres_dbre.Checks.Silence.{collect_issues_none, All-iff}
use postgres_dbre.Checks.Sql.{
  create_extension_re, read_only_forbidden_patterns, declared_read_only, destructive_issues,
  check_no_destructive_statements,
}
use postgres_dbre.Checks.Sql.Verdicts.{NoneFound, destructive_issues_none_iff}

-- A file that can be read, and whose text is accepted: no `CREATE EXTENSION` and, where it is
-- declared read-only, no forbidden statement, once comments and literals are removed.
pub record IsAccepted (fs : Fs) (p : FilePath) : Type 0 where
  pub content : Text
  pub readable : read_replaced fs p ≡ ok content
  pub no_extension : search_in create_extension_re (strip_sql_comments_and_literals content) ≡ false
  pub no_statement :
      declared_read_only (parse_sql_header content).safety_label ≡ true
      → NoneFound (strip_sql_comments_and_literals content) read_only_forbidden_patterns

IsAccepted-iff :
    (fs : Fs) (p : FilePath)
    → (map_ok (destructive_issues p) (read_replaced fs p) ≡ ok []) ↔ IsAccepted fs p
IsAccepted-iff fs p = (
  λ h.
      let (text, read, silent) = map_ok-ok (destructive_issues p) (read_replaced fs p) [] h in
      let verdict = (destructive_issues_none_iff p text).0 silent in
      record {
        content = text;
        readable = read;
        no_extension = verdict.0;
        no_statement = verdict.1;
      },
  λ a.
      ap (map_ok (destructive_issues p)) a.readable
      ∙ ap ok ((destructive_issues_none_iff p a.content).1 (a.no_extension, a.no_statement)),
)

-- The check returns and reports nothing exactly if every SQL file that is discovered in the tree
-- can be read and is accepted: once comments and literals are removed, its text has no
-- `CREATE EXTENSION` and, where its header declares it read-only, none of the forbidden statements.
pub check_no_destructive_statements_none_iff :
    (root : FilePath) (fs : Fs)
    → (check_no_destructive_statements root fs ≡ ok [])
      ↔ All (IsAccepted fs) (discover_sql_files root fs)
unfolding check_no_destructive_statements
check_no_destructive_statements_none_iff root fs =
    let files = discover_sql_files root fs in
    let loop =
      collect_issues_none (λ p. map_ok (destructive_issues p) (read_replaced fs p)) files in
    let each = All-iff files (IsAccepted-iff fs) in (λ h. each.0 (loop.0 h), λ a. loop.1 (each.1 a))
