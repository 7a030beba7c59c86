-- ===== src/Tests/Passing.antt =====
-- A run of three checks on a small repository that passes them.
use postgres_dbre.Prelude.{
  refl, Bool, true, false, some, List, [], ◌∷◌, nat_eq, list_eq, sorted, to_set,
}
use postgres_dbre.Prelude.Dict.{lookup, keys}
use postgres_dbre.Text.{
  Text, codes, to_lower, starts_with, after_prefix, has_text, join, concat, str_of, text_le,
}
use postgres_dbre.Os.{Fs, Result, file, directory, universal_newlines, is_dir, is_file}
use postgres_dbre.Catalog.{non_category_root_dirs}
use postgres_dbre.Checks.{
  collect_issues, rglob, rel, read_replaced, discover_workflow_dirs, discover_category_dirs,
  entries_of, path_le, discover_sql_files,
}
use postgres_dbre.Checks.Workflows.{check_workflow_readmes, workflow_issues}
use postgres_dbre.Checks.Sql.{
  check_no_placeholders, placeholder_scan_exclude_files, placeholder_tokens,
  check_no_destructive_statements,
}
use postgres_dbre.Tests.Validation.{check_file}
use postgres_dbre.Validate.{
  Arguments, Outcome, count_errors, count_warnings, selected, unknown, run_checks, main,
}
use postgres_dbre.Validate.AllChecks.{all_checks}
use postgres_dbre.Validate.Passed.{IsSound, main_passed-IsSound}

abbrev names : List Text
names = codes "workflow-readmes" ∷ codes "no-placeholders" ∷ codes "no-destructive-statements" ∷ []

abbrev arguments : Arguments
arguments = record {
  list_checks = false;
  only_checks = some names;
  only_errors = false;
  quiet = true;
}

abbrev repository : Fs
repository =
    (codes "c" ∷ [], directory)
    ∷ (codes "w" ∷ codes "c" ∷ [], directory)
    ∷ (codes "README.md" ∷ codes "w" ∷ codes "c" ∷ [], file (codes "# w"))
    ∷ (codes "scripts" ∷ codes "w" ∷ codes "c" ∷ [], directory)
    ∷ (codes "README.md" ∷ codes "scripts" ∷ codes "w" ∷ codes "c" ∷ [], file (codes "# s"))
    ∷ (
      codes "1_a.sql" ∷ codes "scripts" ∷ codes "w" ∷ codes "c" ∷ [],
      file (codes "/* SAFETY:\nREAD ONLY */ SELECT 1;"),
    )
    ∷ []

abbrev outcome : Outcome
outcome = record {
  code = 0;
  out =
      codes "\n======================================================================"
      ∷ codes "Validated: r"
      ∷ codes "Total: 0 error(s), 0 warning(s)"
      ∷ codes "RESULT: PASS (warnings, if any, are informational)"
      ∷ codes "======================================================================"
      ∷ [];
  err_out = [];
}

abbrev nothing_outside : Text → Bool
nothing_outside path = false

-- What the run calls.
run_all : Arguments → Fs → Result Outcome
unfolding main all_checks unknown sorted to_set run_checks selected check_no_placeholders
    collect_issues rglob keys starts_with placeholder_scan_exclude_files rel join read_replaced
    lookup after_prefix universal_newlines placeholder_tokens check_workflow_readmes workflow_issues
    discover_workflow_dirs discover_category_dirs entries_of path_le text_le is_dir is_file
    non_category_root_dirs check_no_destructive_statements discover_sql_files check_file
    count_errors count_warnings concat str_of has_text
run_all args = main (all_checks nothing_outside (codes "r" ∷ [])) args (codes "r")

main_passed-IsSound_example : IsSound names nothing_outside (codes "r" ∷ []) repository
unfolding run_all list_eq nat_eq to_lower
main_passed-IsSound_example =
    main_passed-IsSound nothing_outside (codes "r" ∷ []) arguments (codes "r") repository outcome
      refl refl refl refl
