-- ===== src/Tests/Patterns.antt =====
-- The theorems about the matcher at one pattern and one text.
use postgres_dbre.Prelude.{◌≡◌, ◌↔◌, true, none, []}
use postgres_dbre.Text.{codes}
use postgres_dbre.Regex.Found.{IsFound}
use postgres_dbre.Header.{parse_sql_header}
use postgres_dbre.Header.Strip.{strip_sql_comments_and_literals}
use postgres_dbre.Checks.Sql.{
  read_only_forbidden_patterns, create_extension_re, declared_read_only, destructive_issues,
}
use postgres_dbre.Checks.Sql.Patterns.{Unmatched, destructive_issues-Unmatched_iff}

destructive_issues-Unmatched_iff_example : (destructive_issues [] (codes "DROP TABLE t") ≡ []) ↔ (
    (¬ IsFound create_extension_re none (strip_sql_comments_and_literals (codes "DROP TABLE t")))
    × (declared_read_only (parse_sql_header (codes "DROP TABLE t")).safety_label ≡ true
        → Unmatched
            (strip_sql_comments_and_literals (codes "DROP TABLE t"))
            read_only_forbidden_patterns))
destructive_issues-Unmatched_iff_example =
    destructive_issues-Unmatched_iff [] (codes "DROP TABLE t")
