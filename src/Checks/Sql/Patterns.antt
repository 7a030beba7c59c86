-- ===== src/Checks/Sql/Patterns.antt =====
-- The patterns of `check_no_placeholders` and `check_no_destructive_statements`, without the matcher.
use postgres_dbre.Prelude.{
  ℕ, ◌<◌, ◌≡◌, ◌↔◌, ap, inl, inr, Bool, true, false, not, Bool-cases, none, List, [], ◌∷◌, All,
  length, arith,
}
use postgres_dbre.Text.{Text, codes, is_space}
use postgres_dbre.Os.{FilePath}
use postgres_dbre.Regex.{
  Regex, one, seq, boundary, Place, search_in, literal, caseless, spaces, some_spaces, visible,
  one_of, phrase,
}
use postgres_dbre.Regex.Matching.{Matches, IsProductive}
use postgres_dbre.Regex.Found.{IsFound, search_in_iff}
use postgres_dbre.Header.{parse_sql_header}
use postgres_dbre.Header.Strip.{strip_sql_comments_and_literals}
use postgres_dbre.Checks.Sql.{
  read_only_forbidden_patterns, create_extension_re, declared_read_only, destructive_issues,
}
use postgres_dbre.Checks.Sql.Verdicts.{NoneFound, destructive_issues_none_iff}

literal-IsProductive : (w : Text) → IsProductive (literal w)
literal-IsProductive [] = tt
literal-IsProductive (c ∷ w) = (tt, literal-IsProductive w)

caseless-IsProductive : (w : Text) → IsProductive (caseless w)
caseless-IsProductive [] = tt
caseless-IsProductive (c ∷ w) = (tt, caseless-IsProductive w)

one_of-IsProductive : (ws : List Text) → IsProductive (one_of ws)
one_of-IsProductive [] = tt
one_of-IsProductive (w ∷ []) = caseless-IsProductive w
one_of-IsProductive (w ∷ v ∷ ws) = (caseless-IsProductive w, one_of-IsProductive (v ∷ ws))

one_takes_one : (p : ℕ → Bool) (a b : Place) → Matches (one p) a b → length b.rest < length a.rest
one_takes_one p a b (c, (s, (at, (holds, same)))) =
    omega (arith, ap (length {A = ℕ}) at, ap (λ x. length x.rest) same)

spaces-IsProductive : IsProductive spaces
spaces-IsProductive = (tt, (tt, one_takes_one is_space))

phrase-IsProductive :
    (first : Text) (second : Regex) → IsProductive second → IsProductive (phrase first second)
phrase-IsProductive first second g =
    (tt, (caseless-IsProductive first, (spaces-IsProductive, (g, tt))))

word-IsProductive : (w : Text) → IsProductive (seq boundary (seq (caseless w) boundary))
word-IsProductive w = (tt, (caseless-IsProductive w, tt))

pub then-IsProductive : (first second : Text) → IsProductive (phrase first (caseless second))
then-IsProductive first second =
    phrase-IsProductive first (caseless second) (caseless-IsProductive second)

choice-IsProductive : (first : Text) (ws : List Text) → IsProductive (phrase first (one_of ws))
choice-IsProductive first ws = phrase-IsProductive first (one_of ws) (one_of-IsProductive ws)

-- `\bUPDATE\s+\S+\s+SET\b`, and the call of a function.
update-IsProductive :
    IsProductive (phrase (codes "UPDATE") (seq visible (seq spaces (caseless (codes "SET")))))
update-IsProductive =
    phrase-IsProductive (codes "UPDATE") (seq visible (seq spaces (caseless (codes "SET")))) (
      (tt, (tt, one_takes_one (λ c. not (is_space c)))),
      (spaces-IsProductive, caseless-IsProductive (codes "SET")),
    )

call-IsProductive :
    (name : Text)
    → IsProductive (seq boundary (seq (caseless name) (seq some_spaces (literal (codes "(")))))
call-IsProductive name = (
  tt,
  (caseless-IsProductive name, ((tt, one_takes_one is_space), literal-IsProductive (codes "("))),
)

abbrev AllProductive : List (Regex × Text) → Type 0
AllProductive patterns = All (λ (pattern, shown). IsProductive pattern) patterns

forbidden-AllProductive : AllProductive read_only_forbidden_patterns
unfolding read_only_forbidden_patterns
forbidden-AllProductive = (
  choice-IsProductive (codes "DROP") (
      codes "TABLE"
      ∷ codes "INDEX"
      ∷ codes "SCHEMA"
      ∷ codes "DATABASE"
      ∷ codes "SEQUENCE"
      ∷ codes "VIEW"
      ∷ codes "FUNCTION"
      ∷ codes "EXTENSION"
      ∷ codes "ROLE"
      ∷ []),
  (
    word-IsProductive (codes "TRUNCATE"),
    (
      then-IsProductive (codes "DELETE") (codes "FROM"),
      (
        then-IsProductive (codes "INSERT") (codes "INTO"),
        (
          update-IsProductive,
          (
            choice-IsProductive (codes "ALTER") (
                codes "TABLE"
                ∷ codes "SYSTEM"
                ∷ codes "DATABASE"
                ∷ codes "INDEX"
                ∷ codes "SEQUENCE"
                ∷ []),
            (
              then-IsProductive (codes "VACUUM") (codes "FULL"),
              (
                choice-IsProductive (codes "CREATE") (
                    codes "TABLE"
                    ∷ codes "INDEX"
                    ∷ codes "EXTENSION"
                    ∷ codes "SEQUENCE"
                    ∷ codes "VIEW"
                    ∷ []),
                (
                  call-IsProductive (codes "pg_terminate_backend"),
                  (call-IsProductive (codes "pg_cancel_backend"), tt),
                ),
              ),
            ),
          ),
        ),
      ),
    ),
  ),
)

create_extension-IsProductive : IsProductive create_extension_re
unfolding create_extension_re
create_extension-IsProductive = then-IsProductive (codes "CREATE") (codes "EXTENSION")

-- No pattern matches anywhere in the text.
abbrev pub Unmatched : Text → List (Regex × Text) → Type 0
Unmatched s = All (λ (pattern, shown). ¬ IsFound pattern none s)

unmatched_iff :
    (r : Regex) (s : Text) → IsProductive r → (search_in r s ≡ false) ↔ (¬ IsFound r none s)
unmatched_iff r s g = (
  λ e f. cc ((search_in_iff r s g).1 f, e),
  λ missing. elim (Bool-cases (search_in r s)) [
    | inl e ↦ absurd (missing ((search_in_iff r s g).0 e))
    | inr e ↦ e
  ],
)

NoneFound-iff :
    (s : Text) (patterns : List (Regex × Text))
    → AllProductive patterns
    → NoneFound s patterns ↔ Unmatched s patterns
NoneFound-iff s [] g = (λ h. tt, λ h. tt)
NoneFound-iff s ((pattern, shown) ∷ more) (g, gs) =
    let first = unmatched_iff pattern s g in
    let rest = NoneFound-iff s more gs in
    (λ (h, hs). (first.0 h, rest.0 hs), λ (h, hs). (first.1 h, rest.1 hs))

-- The check reports nothing about a text exactly if in it, once comments and literals are removed,
-- `CREATE EXTENSION` matches nowhere and, where the header declares the script read-only, none of the
-- forbidden patterns matches anywhere; of a match the relation is meant that a pattern stands for.
pub destructive_issues-Unmatched_iff :
    (p : FilePath) (content : Text)
    → (destructive_issues p content ≡ []) ↔ (
        (¬ IsFound create_extension_re none (strip_sql_comments_and_literals content))
        × (declared_read_only (parse_sql_header content).safety_label ≡ true
            → Unmatched (strip_sql_comments_and_literals content) read_only_forbidden_patterns))
destructive_issues-Unmatched_iff p content =
    let body = strip_sql_comments_and_literals content in
    let whole = destructive_issues_none_iff p content in
    let extension = unmatched_iff create_extension_re body create_extension-IsProductive in
    let statements = NoneFound-iff body read_only_forbidden_patterns forbidden-AllProductive in
    (
      λ h. let (a, b) = whole.0 h in (extension.0 a, λ e. statements.0 (b e)),
      λ (a, b). whole.1 (extension.1 a, λ e. statements.1 (b e)),
    )
