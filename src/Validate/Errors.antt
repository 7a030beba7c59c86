-- ===== src/Validate/Errors.antt =====
-- The checks whose issues are all errors, so that a run without errors is one where they are silent.
use postgres_dbre.Prelude.{
  ◌≡◌, refl, sym, Bool, true, false, List, [], ◌∷◌, ◌++◌, ◌&&◌, All, all, arith,
}
use postgres_dbre.Text.{Text, codes}
use postgres_dbre.Os.{
  FilePath, Fs, Result, ok, ok_injective, map_ok-ok, and_then-ok, is_file, is_dir,
}
use postgres_dbre.Regex.{Regex}
use postgres_dbre.Header.Strip.{strip_sql_comments_and_literals}
use postgres_dbre.Checks.{
  Issue, collect_issues, read_replaced, discover_sql_files, discover_workflow_dirs,
}
use postgres_dbre.Checks.Workflows.{
  scripts_issues, workflow_issues, issues_of, check_workflow_readmes,
}
use postgres_dbre.Checks.Sql.{
  token_issues, check_no_placeholders, read_only_forbidden_patterns, forbidden_issues,
  destructive_issues, check_no_destructive_statements,
}
use postgres_dbre.Validate.{is_error}

abbrev pub OnlyErrors : List Issue → Type 0
OnlyErrors issues = all is_error issues ≡ true

pub all-append :
    (xs ys : List Issue) → all is_error (xs ++ ys) ≡ (all is_error xs && all is_error ys)
all-append [] ys = refl
all-append (x ∷ xs) ys = ground (arith, all-append xs ys)

pub OnlyErrors-silent :
    (issues : List Issue)
    → OnlyErrors issues
    → All (λ issue. is_error issue ≡ false) issues
    → issues ≡ []
OnlyErrors-silent [] h k = refl
OnlyErrors-silent (issue ∷ issues) h (e, k) = ground arith

collect_issues-OnlyErrors {ℓ} :
    {A : Type ℓ} (f : A → Result (List Issue)) (xs : List A) (issues : List Issue)
    → ((x : A) (found : List Issue) → f x ≡ ok found → OnlyErrors found)
    → collect_issues f xs ≡ ok issues
    → OnlyErrors issues
unfolding collect_issues
collect_issues-OnlyErrors f [] issues each h = rw (sym (ok_injective h)) refl
collect_issues-OnlyErrors f (x ∷ xs) issues each h =
    let (found, here, rest) = and_then-ok (f x) _ issues h in
    let (more, later, joined) = map_ok-ok _ (collect_issues f xs) issues rest in
    rw (sym joined, all-append)
      (ground (arith, each x found here, collect_issues-OnlyErrors f xs more each later))

scripts_issues-OnlyErrors :
    (workflow : FilePath) (dir readme : Bool) → OnlyErrors (scripts_issues workflow dir readme)
scripts_issues-OnlyErrors workflow false readme = refl
scripts_issues-OnlyErrors workflow true readme = ground arith

issues_of-OnlyErrors : (fs : Fs) (dirs : List FilePath) → OnlyErrors (issues_of fs dirs)
unfolding workflow_issues
issues_of-OnlyErrors fs [] = refl
issues_of-OnlyErrors fs (dir ∷ dirs) = rw all-append (
    rw all-append (
      ground (
        arith,
        scripts_issues-OnlyErrors dir (is_dir (codes "scripts" ∷ dir) fs)
            (is_file (codes "README.md" ∷ codes "scripts" ∷ dir) fs),
        issues_of-OnlyErrors fs dirs,
      )))

pub check_workflow_readmes-OnlyErrors : (fs : Fs) → OnlyErrors (check_workflow_readmes fs)
unfolding check_workflow_readmes
check_workflow_readmes-OnlyErrors fs = issues_of-OnlyErrors fs (discover_workflow_dirs fs)

token_issues-OnlyErrors :
    (p : FilePath) (content : Text) (tokens : List (Regex × Text))
    → OnlyErrors (token_issues p content tokens)
token_issues-OnlyErrors p content [] = refl
token_issues-OnlyErrors p content ((pattern, label) ∷ tokens) =
    rw all-append (ground (arith, token_issues-OnlyErrors p content tokens))

pub check_no_placeholders-OnlyErrors :
    (root : FilePath) (fs : Fs) (issues : List Issue)
    → check_no_placeholders root fs ≡ ok issues
    → OnlyErrors issues
unfolding check_no_placeholders
check_no_placeholders-OnlyErrors root fs issues = collect_issues-OnlyErrors _ _ issues λ p found h.
    let (content, read, e) = map_ok-ok _ (read_replaced fs p) found h in
    rw (sym e) (token_issues-OnlyErrors p content _)

forbidden_issues-OnlyErrors :
    (p : FilePath) (body : Text) (patterns : List (Regex × Text))
    → OnlyErrors (forbidden_issues p body patterns)
unfolding forbidden_issues
forbidden_issues-OnlyErrors p body [] = refl
forbidden_issues-OnlyErrors p body ((pattern, shown) ∷ more) =
    rw all-append (ground (arith, forbidden_issues-OnlyErrors p body more))

destructive_issues-OnlyErrors :
    (p : FilePath) (content : Text) → OnlyErrors (destructive_issues p content)
unfolding destructive_issues
destructive_issues-OnlyErrors p content =
    let body = strip_sql_comments_and_literals content in
    rw all-append (ground (arith, forbidden_issues-OnlyErrors p body read_only_forbidden_patterns))

pub check_no_destructive_statements-OnlyErrors :
    (root : FilePath) (fs : Fs) (issues : List Issue)
    → check_no_destructive_statements root fs ≡ ok issues
    → OnlyErrors issues
unfolding check_no_destructive_statements
check_no_destructive_statements-OnlyErrors root fs issues =
    collect_issues-OnlyErrors _ (discover_sql_files root fs) issues λ p found h.
      let (content, read, e) = map_ok-ok _ (read_replaced fs p) found h in
      rw (sym e) (destructive_issues-OnlyErrors p content)
