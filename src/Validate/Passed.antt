-- ===== src/Validate/Passed.antt =====
-- What a run of all checks that ends with code 0 says of the repository.
use mathlib.Core.Path.{subst}
use postgres_dbre.Prelude.{
  ◌≡◌, sym, ap, ◌∙◌, Bool, true, false, not, length, List, [], ◌++◌, All, keep_if, nat_eq, list_eq,
}
use postgres_dbre.Text.{Text, codes}
use postgres_dbre.Os.{FilePath, Fs, Result, ok, ok_injective}
use postgres_dbre.Checks.{
  Issue, discover_workflow_dirs, discover_sql_files, discover_scripts_dirs, rglob, read_replaced,
}
use postgres_dbre.Checks.Workflows.{check_workflow_readmes}
use postgres_dbre.Checks.Workflows.Present.{IsComplete, check_workflow_readmes_none_iff}
use postgres_dbre.Checks.Sql.{is_excluded}
use postgres_dbre.Checks.Sql.Finished.{IsFinished, check_no_placeholders_none_iff}
use postgres_dbre.Checks.Sql.Accepted.{IsAccepted, check_no_destructive_statements_none_iff}
use postgres_dbre.Validate.{Arguments, Outcome, wanted, main}
use postgres_dbre.Validate.AllChecks.{all_checks}
use postgres_dbre.Validate.Exit.{NoErrors, is_refused}
use postgres_dbre.Validate.Quiet.{IsQuiet, is_selected, exit_code_iff}
use postgres_dbre.Validate.Established.{
  IsHeaded, IsCatalogued, check_sql_headers-IsHeaded, check_markdown_links_reads, dirs_numbered,
  check_catalog-IsCatalogued,
}
use postgres_dbre.Validate.MapErrors.{check_repository_map-OnlyErrors}
use postgres_dbre.Checks.Filenames.{
  range, sort_numbers, numbers_of, script_names, check_sequential_filenames,
}
use postgres_dbre.Checks.Links.{markdown_files}
use postgres_dbre.Checks.RepositoryMap.Accurate.{IsMapped, check_repository_map_none_iff}
use postgres_dbre.Validate.Errors.{
  OnlyErrors, OnlyErrors-silent, check_workflow_readmes-OnlyErrors,
  check_no_placeholders-OnlyErrors, check_no_destructive_statements-OnlyErrors,
}

-- A check that was quiet and reports errors only returned no issue.
quiet_none :
    (result : Result (List Issue)) (found : List Issue)
    → result ≡ ok found
    → NoErrors found
    → OnlyErrors found
    → result ≡ ok []
quiet_none result found h quiet errors = h ∙ ap ok (OnlyErrors-silent found errors quiet)

-- What each check establishes that finds no error, where it was selected. The link check only warns
-- of links.
pub record IsSound (names : List Text) (outside : Text → Bool) (root : FilePath) (fs : Fs)
    : Type 0 where
  pub complete :
      is_selected names (codes "workflow-readmes") ≡ true
      → All (IsComplete fs) (discover_workflow_dirs fs)
  pub headed :
      is_selected names (codes "sql-headers") ≡ true
      → All (IsHeaded fs) (discover_sql_files root fs)
  pub finished :
      is_selected names (codes "no-placeholders") ≡ true
      → All (IsFinished fs) (
          keep_if
            (λ p. not (is_excluded root p))
            (rglob (codes ".sql") fs ++ rglob (codes ".md") fs))
  pub accepted :
      is_selected names (codes "no-destructive-statements") ≡ true
      → All (IsAccepted fs) (discover_sql_files root fs)
  pub numbered :
      is_selected names (codes "sequential-filenames") ≡ true
      → All
          (λ dir.
            let ns = numbers_of (script_names fs dir) in sort_numbers ns ≡ range 1 (length ns))
          (discover_scripts_dirs root fs)
  pub catalogued : is_selected names (codes "catalog-completeness") ≡ true → IsCatalogued fs
  pub readable :
      is_selected names (codes "markdown-links") ≡ true
      → All (λ p. (content : Text) × (read_replaced fs p ≡ ok content)) (markdown_files root fs)
  pub mapped : is_selected names (codes "repository-map") ≡ true → IsMapped outside fs

readmes-IsComplete :
    (fs : Fs)
    → IsQuiet fs (codes "workflow-readmes", λ gs. ok (check_workflow_readmes gs))
    → All (IsComplete fs) (discover_workflow_dirs fs)
readmes-IsComplete fs (found, h, quiet) =
    let errors = subst OnlyErrors (ok_injective h) (check_workflow_readmes-OnlyErrors fs) in
    (check_workflow_readmes_none_iff fs).0 (ok_injective h ∙ OnlyErrors-silent found errors quiet)

all_quiet-IsSound :
    (names : List Text) (outside : Text → Bool) (root : FilePath) (fs : Fs)
    → All (λ check. is_selected names check.0 ≡ true → IsQuiet fs check) (all_checks outside root)
    → IsSound names outside root fs
unfolding all_checks check_sequential_filenames
all_quiet-IsSound names outside root fs
      (
        readmes,
        (headers, (markers, (statements, (numbers, (catalog, (links, (map, none_left))))))),
      ) =
    record {
      complete = λ wants. readmes-IsComplete fs (readmes wants);
      headed = λ wants.
          let (found, h, quiet) = headers wants in check_sql_headers-IsHeaded root fs found h quiet;
      finished = λ wants.
          let (found, h, quiet) = markers wants in
          (check_no_placeholders_none_iff root fs).0
            (quiet_none _ found h quiet (check_no_placeholders-OnlyErrors root fs found h));
      accepted = λ wants.
          let (found, h, quiet) = statements wants in
          (check_no_destructive_statements_none_iff root fs).0 (
            quiet_none _ found h quiet
              (check_no_destructive_statements-OnlyErrors root fs found h));
      numbered = λ wants.
          let (found, h, quiet) = numbers wants in
          dirs_numbered fs (discover_scripts_dirs root fs)
            (subst NoErrors (sym (ok_injective h)) quiet);
      catalogued = λ wants.
          let (found, h, quiet) = catalog wants in
          check_catalog-IsCatalogued fs (subst NoErrors (sym (ok_injective h)) quiet);
      readable = λ wants.
          let (found, h, quiet) = links wants in check_markdown_links_reads root fs found h quiet;
      mapped = λ wants.
          let (found, h, quiet) = map wants in
          (check_repository_map_none_iff outside fs).0
            (quiet_none _ found h quiet (check_repository_map-OnlyErrors outside fs found h));
    }

-- A run of `main` with the repository's checks, no unknown name asked for, that returns the exit
-- code 0. Where they were selected, by name or for want of names, the checks have established: every
-- discovered workflow directory has its READMEs and scripts directory; every discovered SQL file has a
-- header with all fields and a value for SAFETY; every SQL and Markdown file that is not excluded can
-- be read and has no placeholder marker; every discovered SQL file is accepted, with no `CREATE
-- EXTENSION` and, where it is declared read-only, no forbidden statement, as far as the removal of
-- comments and literals leaves them; the numbers of the scripts of every directory are 1 up to their
-- count; every expected category is there, and those of the explicit catalog have its workflows; every
-- Markdown file can be read; and the repository map is accurate.
pub main_passed-IsSound :
    (outside : Text → Bool) (root : FilePath) (args : Arguments) (shown : Text) (fs : Fs)
    (outcome : Outcome)
    → args.list_checks ≡ false
    → is_refused (all_checks outside root) (wanted args.only_checks) ≡ false
    → main (all_checks outside root) args shown fs ≡ ok outcome
    → outcome.code ≡ 0
    → IsSound (wanted args.only_checks) outside root fs
main_passed-IsSound outside root args shown fs outcome run known h passed =
    all_quiet-IsSound (wanted args.only_checks) outside root fs
      ((exit_code_iff (all_checks outside root) args shown fs run known).0 (outcome, h, passed))
