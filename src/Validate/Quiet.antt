-- ===== src/Validate/Quiet.antt =====
-- The exit code of `main` by what the selected checks find.
use mathlib.Core.Path.{subst}
use postgres_dbre.Prelude.{
  ◌≡◌, ◌↔◌, refl, sym, ap, ◌∙◌, inl, inr, Bool, true, false, List, [], ◌∷◌, ◌++◌, All, keep_if,
  is_empty, ◌||◌, contains, nat_eq, list_eq, Bool-cases, All-map,
}
use postgres_dbre.Text.{Text}
use postgres_dbre.Os.{Fs, ok, ok_injective, map_ok-ok, and_then-ok}
use postgres_dbre.Checks.{Issue}
use postgres_dbre.Validate.{
  Check, Arguments, Outcome, wanted, selected, run_checks, printed, finished, main,
}
use postgres_dbre.Validate.Exit.{NoErrors, is_refused, main_runs, main_code}

pub NoErrors-append : (xs ys : List Issue) → NoErrors (xs ++ ys) → NoErrors xs × NoErrors ys
NoErrors-append [] ys h = (tt, h)
NoErrors-append (x ∷ xs) ys (e, h) = let parts = NoErrors-append xs ys h in ((e, parts.0), parts.1)

-- A check that returned, and found no error.
abbrev pub IsQuiet : Fs → Check → Type 0
IsQuiet fs (name, fn) = (found : List Issue) × (fn fs ≡ ok found) × NoErrors found

run_checks-IsQuiet :
    (args : Arguments) (fs : Fs) (checks : List Check) (issues : List Issue) (lines : List Text)
    → run_checks args fs checks ≡ ok (issues, lines)
    → NoErrors issues
    → All (IsQuiet fs) checks
unfolding run_checks
run_checks-IsQuiet args fs [] issues lines h quiet = tt
run_checks-IsQuiet args fs ((name, fn) ∷ checks) issues lines h quiet =
    let (found, here, rest) = and_then-ok (fn fs) _ (issues, lines) h in
    let (later, read, joined) = map_ok-ok _ (run_checks args fs checks) (issues, lines) rest in
    let parts = NoErrors-append found later.0 (subst NoErrors (sym (ap (λ p. p.0) joined)) quiet) in
    ((found, here, parts.0), run_checks-IsQuiet args fs checks later.0 later.1 read parts.1)

-- `--check` is not given, or names the check.
abbrev pub is_selected : List Text → Text → Bool
is_selected names name = is_empty names || contains names name

kept_all :
    (fs : Fs) (names : List Text) (checks : List Check)
    → All (IsQuiet fs) (keep_if (λ (name, _). contains names name) checks)
    → All (λ check. contains names check.0 ≡ true → IsQuiet fs check) checks
kept_all fs names [] h = tt
kept_all fs names ((name, fn) ∷ checks) h = elim (Bool-cases (contains names name)) [
  | inl e ↦ let both = rw e at h in (λ wants. both.0, kept_all fs names checks both.1)
  | inr e ↦ (λ wants. cc, kept_all fs names checks (rw e at h))
]

weaken :
    (fs : Fs) (checks : List Check)
    → All (IsQuiet fs) checks
    → All (λ check. true ≡ true → IsQuiet fs check) checks
weaken fs = All-map (λ check quiet wants. quiet)

pub selected_all :
    (fs : Fs) (names : List Text) (checks : List Check)
    → All (IsQuiet fs) (selected checks names)
    → All (λ check. is_selected names check.0 ≡ true → IsQuiet fs check) checks
unfolding selected
selected_all fs [] checks h = weaken fs checks h
selected_all fs (name ∷ names) checks h = kept_all fs (name ∷ names) checks h

NoErrors-join : (xs ys : List Issue) → NoErrors xs → NoErrors ys → NoErrors (xs ++ ys)
NoErrors-join [] ys h k = k
NoErrors-join (x ∷ xs) ys (e, h) k = (e, NoErrors-join xs ys h k)

quiet_run :
    (args : Arguments) (fs : Fs) (checks : List Check)
    → All (IsQuiet fs) checks
    → (issues : List Issue) × (lines : List Text) × (run_checks args fs checks ≡ ok (issues, lines))
      × NoErrors issues
unfolding run_checks
quiet_run args fs [] h = ([], [], refl, tt)
quiet_run args fs ((name, fn) ∷ checks) ((found, e, quiet), rest) =
    let (issues, lines, read, others) = quiet_run args fs checks rest in
    (
      found ++ issues,
      printed args name found ++ lines,
      rw (e, read) refl,
      NoErrors-join found issues quiet others,
    )

kept-IsQuiet :
    (fs : Fs) (names : List Text) (checks : List Check)
    → All (λ check. contains names check.0 ≡ true → IsQuiet fs check) checks
    → All (IsQuiet fs) (keep_if (λ (name, _). contains names name) checks)
kept-IsQuiet fs names [] h = tt
kept-IsQuiet fs names ((name, fn) ∷ checks) (h, hs) = elim (Bool-cases (contains names name)) [
  | inl e ↦ rw e (h e, kept-IsQuiet fs names checks hs)
  | inr e ↦ rw e (kept-IsQuiet fs names checks hs)
]

selected-IsQuiet :
    (fs : Fs) (names : List Text) (checks : List Check)
    → All (λ check. is_selected names check.0 ≡ true → IsQuiet fs check) checks
    → All (IsQuiet fs) (selected checks names)
unfolding selected
selected-IsQuiet fs [] checks h = All-map (λ check quiet. quiet refl) checks h
selected-IsQuiet fs (name ∷ names) checks h = kept-IsQuiet fs (name ∷ names) checks h

-- Where `--list-checks` is not given and no unknown name is asked for: `main` returns the exit code
-- 0 exactly if every check that is named, or every check where none is, returns and finds no issue of
-- severity error. Warnings do not count.
pub exit_code_iff :
    (all_checks : List Check) (args : Arguments) (root : Text) (fs : Fs)
    → args.list_checks ≡ false
    → is_refused all_checks (wanted args.only_checks) ≡ false
    → ((o : Outcome) × (main all_checks args root fs ≡ ok o) × (o.code ≡ 0))
      ↔ All
          (λ check. is_selected (wanted args.only_checks) check.0 ≡ true → IsQuiet fs check)
          all_checks
exit_code_iff all_checks args root fs run known =
    let names = wanted args.only_checks in
    (
      λ (o, h, passed).
          let ((issues, lines), read, same) =
            map_ok-ok (finished root) (run_checks args fs (selected all_checks names)) o
              (sym (main_runs all_checks args root fs run known) ∙ h) in
          let (o', h', (codes, bound)) =
            main_code all_checks args root fs issues lines run known read in
          let code : o'.code ≡ 0 =
            ap (λ (x : Outcome). x.code) (ok_injective (sym h' ∙ h)) ∙ passed in
          selected_all fs names all_checks (
            run_checks-IsQuiet args fs (selected all_checks names) issues lines read
              (codes.0 code)),
      λ quiet.
          let (issues, lines, read, none_found) =
            quiet_run args fs (selected all_checks names)
              (selected-IsQuiet fs names all_checks quiet) in
          let (o, h, (codes, bound)) =
            main_code all_checks args root fs issues lines run known read in
          (o, h, codes.1 none_found),
    )
