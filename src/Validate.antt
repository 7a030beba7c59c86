-- ===== src/Validate.antt =====
-- tools/validation/validate_repo.py: `main` after the arguments are parsed. The checks are an
-- argument: their names and functions, in the order of `ALL_CHECKS`.
pub mod Exit
pub mod Quiet
pub mod AllChecks
pub mod Root
pub mod Errors
pub mod Established
pub mod MapErrors
pub mod Passed
use postgres_dbre.Prelude.{
  ℕ, zero, suc, ◌+◌, ◌≡◌, refl, Bool, true, false, not, ◌&&◌, Option, none, some, List, [], ◌∷◌,
  ◌++◌, map, keep_if, contains, length, is_empty, if◌then◌else◌, nat_eq, list_eq, nat_beq, sorted,
  to_set,
}
use postgres_dbre.Text.{Text, codes, concat, join, str_of, text_le}
use postgres_dbre.Os.{Fs, Result, ok, err, map_ok, and_then}
use postgres_dbre.Checks.{Issue, Severity, error, warning}

abbrev pub Check : Type 0
Check = Text × (Fs → Result (List Issue))

pub record Arguments : Type 0 where
  pub list_checks : Bool
  pub only_checks : Option (List Text)
  pub only_errors : Bool
  pub quiet : Bool

-- The exit code, and the lines printed on the standard and the error output.
pub record Outcome : Type 0 where
  pub code : ℕ
  pub out : List Text
  pub err_out : List Text

abbrev pub is_error : Issue → Bool
is_error issue = elim issue.severity [ error ↦ true | warning ↦ false ]

-- `Issue.__str__`
unfoldable pub issue_str : Issue → Text
issue_str issue = concat (
    codes "["
    ∷ (if is_error issue then codes "ERROR" else codes "WARN ")
    ∷ codes "] ("
    ∷ issue.check
    ∷ codes ") "
    ∷ issue.path
    ∷ codes ": "
    ∷ issue.message
    ∷ [])

unfoldable pub count_errors : List Issue → ℕ
count_errors issues = length (keep_if is_error issues)

unfoldable pub count_warnings : List Issue → ℕ
count_warnings issues = length (keep_if (λ i. not (is_error i)) issues)

-- `args.only_checks`: an empty list selects all, as an absent one does.
abbrev wanted : Option (List Text) → List Text
wanted none = []
wanted (some names) = names

unfoldable pub selected : List Check → List Text → List Check
selected all_checks names =
    if is_empty names then all_checks else keep_if (λ (name, _). contains names name) all_checks

unfoldable pub unknown : List Check → List Text → List Text
unknown all_checks names =
    sorted text_le
      (to_set (keep_if (λ name. not (contains (map (λ (n, _). n) all_checks) name)) names))

abbrev section_lines : Arguments → Text → List Issue → List Text
section_lines args name issues =
    concat (
      codes "\n== "
      ∷ name
      ∷ codes " ("
      ∷ str_of (count_errors issues)
      ∷ codes " error(s), "
      ∷ str_of (count_warnings issues)
      ∷ codes " warning(s)) =="
      ∷ [])
    ∷ map (λ i. codes "  " ++ issue_str i)
        (if args.only_errors then keep_if is_error issues else issues)

abbrev pub printed : Arguments → Text → List Issue → List Text
printed args name issues = if args.quiet then [] else section_lines args name issues

-- The loop over the selected checks: all issues, and what is printed.
unfoldable pub run_checks : Arguments → Fs → List Check → Result (List Issue × List Text)
run_checks args fs [] = ok ([], [])
run_checks args fs ((name, fn) ∷ rest) =
    let later = run_checks args fs rest in
    and_then (fn fs) (λ issues.
      map_ok (λ (all_issues, lines). (issues ++ all_issues, printed args name issues ++ lines))
        later)

abbrev bar : Text
bar = codes "======================================================================"

abbrev summary : Text → List Issue → List Text
summary root issues =
    (codes "\n" ++ bar)
    ∷ (codes "Validated: " ++ root)
    ∷ concat (
        codes "Total: "
        ∷ str_of (count_errors issues)
        ∷ codes " error(s), "
        ∷ str_of (count_warnings issues)
        ∷ codes " warning(s)"
        ∷ [])
    ∷ (if nat_beq (count_errors issues) 0
        then codes "RESULT: PASS (warnings, if any, are informational)"
        else codes "RESULT: FAIL (errors must be resolved)")
    ∷ bar
    ∷ []

abbrev finished : Text → List Issue × List Text → Outcome
finished root (issues, lines) = record {
  code = if nat_beq (count_errors issues) 0 then 0 else 1;
  out = lines ++ summary root issues;
  err_out = [];
}

abbrev refused : List Text → Outcome
refused names = record {
  code = 2;
  out = [];
  err_out = (codes "Unknown check name(s): " ++ join (codes ", ") names) ∷ [];
}

unfoldable pub main : List Check → Arguments → Text → Fs → Result Outcome
main all_checks args root fs =
    let names = wanted args.only_checks in
    if args.list_checks
    then ok (record { code = 0; out = map (λ (name, _). name) all_checks; err_out = [] })
    else if not (is_empty names) && not (is_empty (unknown all_checks names))
    then ok (refused (unknown all_checks names))
    else map_ok (finished root) (run_checks args fs (selected all_checks names))
