-- ===== src/Checks/Sql/Passed.antt =====
-- The text of a SQL file about which the checks of headers, statements and placeholders are silent.
use postgres_dbre.Prelude.{◌≡◌, true, []}
use postgres_dbre.Text.{Text, codes}
use postgres_dbre.Os.{FilePath, universal_newlines}
use postgres_dbre.Header.{parse_sql_header}
use postgres_dbre.Checks.{name_of, ends_with}
use postgres_dbre.Checks.Sql.{header_issues, destructive_issues, token_issues, placeholder_tokens}

-- `content` is what stands in the file; the checks read it with newlines normalised.
abbrev pub IsPassed : FilePath → Text → Type 0
IsPassed p content =
    (header_issues p (parse_sql_header (universal_newlines content)) ≡ [])
    × ((destructive_issues p (universal_newlines content) ≡ [])
        × (token_issues p (universal_newlines content) placeholder_tokens ≡ []))

abbrev pub IsPassedSql : FilePath → Text → Type 0
IsPassedSql p content = ends_with (name_of p) (codes ".sql") ≡ true → IsPassed p content
