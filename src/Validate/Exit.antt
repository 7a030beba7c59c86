-- ===== src/Validate/Exit.antt =====
-- The exit code of `main`.
use postgres_dbre.Prelude.{
  ℕ, ◌≤◌, ◌≡◌, ◌↔◌, refl, ap, ◌∙◌, inl, inr, Bool, false, not, ◌&&◌, List, [], ◌∷◌, ◌++◌, is_empty,
  if◌then◌else◌, nat_beq, All, arith, Bool-cases,
}
use postgres_dbre.Text.{Text}
use postgres_dbre.Os.{Fs, Result, ok, err, ok_injective, map_ok, and_then}
use postgres_dbre.Checks.{Issue}
use postgres_dbre.Validate.{
  Check, Arguments, Outcome, is_error, count_errors, wanted, selected, unknown, run_checks,
  finished, main,
}

abbrev pub NoErrors : List Issue → Type 0
NoErrors = All (λ issue. is_error issue ≡ false)

count_errors_none : (issues : List Issue) → (count_errors issues ≡ 0) ↔ NoErrors issues
unfolding count_errors
count_errors_none [] = (λ h. tt, λ h. refl)
count_errors_none (i ∷ issues) =
    let ih = count_errors_none issues in
    elim (Bool-cases (is_error i)) [
      | inl e ↦ rw e (λ h. absurd (omega arith), λ h. cc)
      | inr e ↦ rw e (λ h. (refl, ih.0 h), λ h. ih.1 h.1)
    ]

abbrev pub is_refused : List Check → List Text → Bool
is_refused all_checks names = not (is_empty names) && not (is_empty (unknown all_checks names))

finished_code :
    (root : Text) (issues : List Issue) (lines : List Text)
    → (((finished root (issues, lines)).code ≡ 0) ↔ NoErrors issues)
      × ((finished root (issues, lines)).code ≤ 1)
finished_code root issues lines =
    let count = count_errors_none issues in
    elim (Bool-cases (nat_beq (count_errors issues) 0)) [
      | inl e ↦ rw e ((λ h. count.0 (ground arith), λ h. refl), omega arith)
      | inr e ↦
          rw e ((λ h. absurd (omega arith), λ h. absurd (ground (arith, count.1 h))), omega arith)
    ]

pub main_runs :
    (checks : List Check) (args : Arguments) (shown : Text) (fs : Fs)
    → args.list_checks ≡ false
    → is_refused checks (wanted args.only_checks) ≡ false
    → main checks args shown fs
      ≡ map_ok (finished shown) (run_checks args fs (selected checks (wanted args.only_checks)))
unfolding main
main_runs checks args shown fs run known = rw (run, known) refl

-- A run of checks that all return ends with code 0 exactly if there is no error among the issues.
pub main_code :
    (all_checks : List Check) (args : Arguments) (root : Text) (fs : Fs) (issues : List Issue)
    (lines : List Text)
    → args.list_checks ≡ false
    → is_refused all_checks (wanted args.only_checks) ≡ false
    → run_checks args fs (selected all_checks (wanted args.only_checks)) ≡ ok (issues, lines)
    → (o : Outcome) × (main all_checks args root fs ≡ ok o)
      × (((o.code ≡ 0) ↔ NoErrors issues) × (o.code ≤ 1))
main_code all_checks args root fs issues lines run known passed = (
  finished root (issues, lines),
  main_runs all_checks args root fs run known ∙ ap (map_ok (finished root)) passed,
  finished_code root issues lines,
)

-- The same command with other printing options.
abbrev pub with_printing : Arguments → Bool → Bool → Arguments
with_printing args only_errors quiet = record args { only_errors = only_errors; quiet = quiet }

abbrev same_issues : Result (List Issue × List Text) → Result (List Issue)
same_issues = map_ok (λ r. r.0)

run_step :
    (found : Result (List Issue)) (f g : List Issue → List Text)
    (later later' : Result (List Issue × List Text))
    → same_issues later ≡ same_issues later'
    → same_issues (
        and_then found
          (λ issues. map_ok (λ (all, lines). (issues ++ all, f issues ++ lines)) later))
      ≡ same_issues (
          and_then found
            (λ issues. map_ok (λ (all, lines). (issues ++ all, g issues ++ lines)) later'))
run_step (err e) f g later later' h = refl
run_step (ok issues) f g (ok a) (ok b) h = ground arith
run_step (ok issues) f g (ok a) (err b) h = cc
run_step (ok issues) f g (err a) (ok b) h = cc
run_step (ok issues) f g (err a) (err b) h = ground arith

run_checks-with_printing :
    (args : Arguments) (only_errors quiet : Bool) (fs : Fs) (checks : List Check)
    → same_issues (run_checks (with_printing args only_errors quiet) fs checks)
      ≡ same_issues (run_checks args fs checks)
unfolding run_checks
run_checks-with_printing args only_errors quiet fs [] = refl
run_checks-with_printing args only_errors quiet fs ((name, fn) ∷ rest) =
    run_step (fn fs) _ _ _ _ (run_checks-with_printing args only_errors quiet fs rest)

abbrev pub code_of : Result Outcome → Result ℕ
code_of = map_ok (λ o. o.code)

finished_same :
    (root : Text) (a b : Result (List Issue × List Text))
    → same_issues a ≡ same_issues b
    → code_of (map_ok (finished root) a) ≡ code_of (map_ok (finished root) b)
finished_same root (ok (i, l)) (ok (j, m)) h =
    ap (λ k. ok (if nat_beq (count_errors k) 0 then 0 else 1)) (ok_injective h)
finished_same root (ok a) (err b) h = cc
finished_same root (err a) (ok b) h = cc
finished_same root (err a) (err b) h = ground arith

-- `--only-errors` and `--quiet` change what is printed and nothing else: `main` has the same exit
-- code, or raises the same exception, whatever their values are.
pub printing_keeps_code :
    (all_checks : List Check) (args : Arguments) (only_errors quiet : Bool) (root : Text) (fs : Fs)
    → code_of (main all_checks (with_printing args only_errors quiet) root fs)
      ≡ code_of (main all_checks args root fs)
unfolding main
printing_keeps_code all_checks args only_errors quiet root fs = ground (
  arith,
  finished_same root _ _ (
      run_checks-with_printing args only_errors quiet fs
        (selected all_checks (wanted args.only_checks))),
)
