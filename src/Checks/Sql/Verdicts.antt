-- ===== src/Checks/Sql/Verdicts.antt =====
-- What the silence of `check_no_destructive_statements` about a file means.
use postgres_dbre.Prelude.{
  ◌≡◌, ◌↔◌, refl, inl, inr, Bool, true, false, List, [], ◌∷◌, ◌++◌, All, Bool-cases, if◌then◌else◌,
}
use postgres_dbre.Text.{Text}
use postgres_dbre.Os.{FilePath}
use postgres_dbre.Regex.{Regex, search_in}
use postgres_dbre.Header.{parse_sql_header}
use postgres_dbre.Header.Strip.{strip_sql_comments_and_literals}
use postgres_dbre.Checks.{Issue, when}
use postgres_dbre.Checks.Sql.{
  forbidden_issues, read_only_forbidden_patterns, create_extension_re, declared_read_only,
  destructive_issues,
}

-- None of the patterns is found.
abbrev pub NoneFound : Text → List (Regex × Text) → Type 0
NoneFound body = All (λ (pattern, _). search_in pattern body ≡ false)

forbidden_issues_none :
    (p : FilePath) (body : Text) (patterns : List (Regex × Text))
    → (forbidden_issues p body patterns ≡ []) ↔ NoneFound body patterns
unfolding forbidden_issues
forbidden_issues_none p body [] = (λ h. tt, λ h. refl)
forbidden_issues_none p body ((pattern, shown) ∷ more) =
    let ih = forbidden_issues_none p body more in
    elim (Bool-cases (search_in pattern body)) [
      | inl e ↦ rw e (λ h. cc, λ h. cc)
      | inr e ↦ rw e (λ h. (refl, ih.0 h), λ h. ih.1 h.1)
    ]

two_parts :
    (extension read_only : Bool) (x : Issue) (found : List Issue)
    → ((when extension x ++ (if read_only then found else [])) ≡ [])
      ↔ ((extension ≡ false) × (read_only ≡ true → found ≡ []))
two_parts true read_only x found = (λ h. cc, λ h. cc)
two_parts false true x found = (λ h. (refl, λ e. h), λ h. h.1 refl)
two_parts false false x found = (λ h. (refl, λ e. cc), λ h. refl)

-- The check is silent about a text exactly if, once its comments and literals are removed, it has
-- no `CREATE EXTENSION` and, where the header declares the script read-only, none of the forbidden
-- statements.
pub destructive_issues_none_iff :
    (p : FilePath) (content : Text)
    → (destructive_issues p content ≡ []) ↔ (
        (search_in create_extension_re (strip_sql_comments_and_literals content) ≡ false)
        × (declared_read_only (parse_sql_header content).safety_label ≡ true
            → NoneFound (strip_sql_comments_and_literals content) read_only_forbidden_patterns))
unfolding destructive_issues
destructive_issues_none_iff p content =
    let body = strip_sql_comments_and_literals content in
    let parts =
      two_parts (search_in create_extension_re body)
        (declared_read_only (parse_sql_header content).safety_label) _
        (forbidden_issues p body read_only_forbidden_patterns) in
    let found = forbidden_issues_none p body read_only_forbidden_patterns in
    (λ h. ((parts.0 h).0, λ e. found.0 ((parts.0 h).1 e)), λ h. parts.1 (h.0, λ e. found.1 (h.1 e)))
