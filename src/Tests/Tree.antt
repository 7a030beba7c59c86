-- ===== src/Tests/Tree.antt =====
-- The theorems about checks of a whole tree, at a small one, and of a rendered header.
use postgres_dbre.Prelude.{◌≡◌, ◌↔◌, true, [], ◌∷◌, All, any, not, keep_if, ◌++◌}
use postgres_dbre.Text.{codes, strip, is_space, upper, starts_with}
use postgres_dbre.Os.{Fs, file, directory, ok}
use postgres_dbre.Render.{render_sql_file}
use postgres_dbre.Header.{parse_sql_header, known_safety_labels}
use postgres_dbre.Tests.Validation.{script, workflow, script-IsPlain}
use postgres_dbre.Checks.Sql.Rendered.{rendered_header_none_iff}
use postgres_dbre.Checks.{rglob, discover_workflow_dirs, discover_sql_files}
use postgres_dbre.Checks.Workflows.{check_workflow_readmes}
use postgres_dbre.Checks.Workflows.Present.{IsComplete, check_workflow_readmes_none_iff}
use postgres_dbre.Checks.Sql.{
  header_issues, check_no_placeholders, is_excluded, check_no_destructive_statements,
}
use postgres_dbre.Checks.Sql.Finished.{IsFinished, check_no_placeholders_none_iff}
use postgres_dbre.Checks.Sql.Accepted.{IsAccepted, check_no_destructive_statements_none_iff}

-- One workflow without a README of its scripts, and one script.
abbrev small_tree : Fs
small_tree =
    (codes "c" ∷ [], directory)
    ∷ (codes "w" ∷ codes "c" ∷ [], directory)
    ∷ (codes "README.md" ∷ codes "w" ∷ codes "c" ∷ [], file (codes "# w"))
    ∷ (codes "scripts" ∷ codes "w" ∷ codes "c" ∷ [], directory)
    ∷ (
      codes "01_a.sql" ∷ codes "scripts" ∷ codes "w" ∷ codes "c" ∷ [],
      file (codes "/* SAFETY:\nREAD ONLY */ SELECT 1; -- DROP TABLE t"),
    )
    ∷ []

check_workflow_readmes_none_iff_example :
    (check_workflow_readmes small_tree ≡ [])
    ↔ All (IsComplete small_tree) (discover_workflow_dirs small_tree)
check_workflow_readmes_none_iff_example = check_workflow_readmes_none_iff small_tree

check_no_destructive_statements_none_iff_example :
    (check_no_destructive_statements (codes "repo" ∷ []) small_tree ≡ ok [])
    ↔ All (IsAccepted small_tree) (discover_sql_files (codes "repo" ∷ []) small_tree)
check_no_destructive_statements_none_iff_example =
    check_no_destructive_statements_none_iff (codes "repo" ∷ []) small_tree

rendered_header_none_iff_example :
    (header_issues (codes "01_a.sql" ∷ []) (parse_sql_header (render_sql_file workflow script))
      ≡ [])
    ↔ (any (starts_with (upper (strip is_space script.safety))) known_safety_labels ≡ true)
rendered_header_none_iff_example =
    rendered_header_none_iff (codes "01_a.sql" ∷ []) workflow script script-IsPlain

check_no_placeholders_none_iff_example :
    (check_no_placeholders (codes "repo" ∷ []) small_tree ≡ ok [])
    ↔ All (IsFinished small_tree) (
        keep_if
          (λ p. not (is_excluded (codes "repo" ∷ []) p))
          (rglob (codes ".sql") small_tree ++ rglob (codes ".md") small_tree))
check_no_placeholders_none_iff_example =
    check_no_placeholders_none_iff (codes "repo" ∷ []) small_tree
