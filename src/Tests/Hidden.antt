-- ===== src/Tests/Hidden.antt =====
-- A statement behind two dashes in a literal.
use postgres_dbre.Prelude.{◌≡◌, refl, ◌++◌, nat_eq}
use postgres_dbre.Text.{codes, has_text, starts_with, after_prefix}
use postgres_dbre.Header.Strip.{strip_sql_comments_and_literals}
use postgres_dbre.Header.Strip.Hidden.{hidden_after_dashes}

hidden_after_dashes_example :
    strip_sql_comments_and_literals
      (codes "SELECT '--'; " ++ codes "CREATE EXTENSION x; DROP TABLE t;")
    ≡ codes "SELECT ' "
unfolding has_text starts_with after_prefix nat_eq
hidden_after_dashes_example =
    hidden_after_dashes (codes "CREATE EXTENSION x; DROP TABLE t;") refl refl
