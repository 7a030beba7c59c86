-- ===== src/Build.antt =====
-- tools/build_repository.py: `main`. The modules of the registry are an argument, the tree below
-- `--root` is the state, and what is printed is part of the result.
pub mod Runs
pub mod Passed
use postgres_dbre.Prelude.{
  ℕ, ◌+◌, Bool, true, false, not, Option, none, some, List, [], ◌∷◌, ◌++◌, any, keep_if, length,
  if◌then◌else◌, ◌==◌, nat_eq, list_eq,
}
use postgres_dbre.Prelude.Dict.{insert}
use postgres_dbre.Text.{Text, codes, has_text, split_on, concat, str_of}
use postgres_dbre.Os.{Io, pure, raise, ◌>>=◌, mixed_categories}
use postgres_dbre.Model.{Workflow}
use postgres_dbre.Writer.Json.{Host}
use postgres_dbre.Writer.Manifest.{Categories}
use postgres_dbre.Writer.Sync.{sync_managed_artifacts}
use postgres_dbre.Writer.Workflows.{write_workflows}

unfoldable pub category_modules : List Text
category_modules =
    codes "tools.repo_builder.wf_performance"
    ∷ codes "tools.repo_builder.wf_locking"
    ∷ codes "tools.repo_builder.wf_xid"
    ∷ codes "tools.repo_builder.wf_vacuum"
    ∷ codes "tools.repo_builder.wf_partitioning"
    ∷ codes "tools.repo_builder.wf_archival"
    ∷ codes "tools.repo_builder.wf_tables_indexes"
    ∷ codes "tools.repo_builder.wf_connections"
    ∷ codes "tools.repo_builder.wf_replication"
    ∷ codes "tools.repo_builder.wf_health"
    ∷ codes "tools.repo_builder.wf_query_optimization"
    ∷ codes "tools.repo_builder.wf_storage"
    ∷ codes "tools.repo_builder.wf_schema_changes"
    ∷ codes "tools.repo_builder.wf_incident_response"
    ∷ codes "tools.repo_builder.wf_security"
    ∷ codes "tools.repo_builder.wf_observability"
    ∷ codes "tools.repo_builder.wf_maintenance"
    ∷ codes "tools.repo_builder.wf_dr"
    ∷ codes "tools.repo_builder.wf_automation"
    ∷ []

-- `WORKFLOWS` and `CATEGORY_SLUG` of a module of the registry.
pub record Registered : Type 0 where
  pub workflows : List Workflow
  pub category : Text

-- What the loop over the modules has computed.
pub record Progress : Type 0 where
  pub total_workflows : ℕ
  pub total_scripts : ℕ
  pub generated : Categories
  pub selected : List Text
  pub printed : List Text

abbrev pub start : Progress
start = record {
  total_workflows = 0;
  total_scripts = 0;
  generated = [];
  selected = [];
  printed = [];
}

-- `--only`: the modules whose path has one of the comma-separated pieces. An empty value selects all.
unfoldable pub select_modules : Option Text → List Text
select_modules none = category_modules
select_modules (some []) = category_modules
select_modules (some (c ∷ only)) =
    keep_if (λ m. any (λ f. has_text f m) (split_on b',' (c ∷ only))) category_modules

abbrev pub is_full : Option Text → Bool
is_full none = true
is_full (some _) = false

unfoldable pub count_scripts : List Workflow → ℕ
count_scripts [] = 0
count_scripts (w ∷ ws) = length w.scripts + count_scripts ws

abbrev ok_line : Text → List Workflow → Text
ok_line mod_name workflows = concat (
    codes "[ok] "
    ∷ mod_name
    ∷ codes ": "
    ∷ str_of (length workflows)
    ∷ codes " workflows, "
    ∷ str_of (count_scripts workflows)
    ∷ codes " scripts"
    ∷ [])

module _ (host : Host) (import_module : Text → Registered) where
  -- One round of the loop, by the module's workflows.
  abbrev pub build_category : Text → Text → List Workflow → Progress → Io Progress
  build_category mod_name category [] p =
      pure
        (record p { generated = insert category [] p.generated; selected = category ∷ p.selected })
  build_category mod_name category (w ∷ ws) p =
      if any (λ wf. not (wf.category_slug == category)) (w ∷ ws)
      then raise (mixed_categories mod_name)
      else (write_workflows host (w ∷ ws) >>= λ written. pure (record {
        total_workflows = p.total_workflows + length (w ∷ ws);
        total_scripts = p.total_scripts + count_scripts (w ∷ ws);
        generated = insert category written p.generated;
        selected = category ∷ p.selected;
        printed = p.printed ++ (ok_line mod_name (w ∷ ws) ∷ []);
      }))

  unfoldable pub build_module : Text → Progress → Io Progress
  build_module mod_name p =
      let m = import_module mod_name in build_category mod_name m.category m.workflows p

  unfoldable pub build_modules : List Text → Progress → Io Progress
  build_modules [] p = pure p
  build_modules (mod_name ∷ rest) p = build_module mod_name p >>= build_modules rest

  abbrev clean_line : List Text → List Text
  clean_line [] = []
  clean_line (r ∷ rs) =
      concat (
        codes "[clean] removed "
        ∷ str_of (length (r ∷ rs))
        ∷ codes " obsolete generator-managed file(s)"
        ∷ [])
      ∷ []

  abbrev total_line : Text → Progress → Text
  total_line root p = concat (
      codes "\nTotal: "
      ∷ str_of p.total_workflows
      ∷ codes " workflows, "
      ∷ str_of p.total_scripts
      ∷ codes " scripts written under "
      ∷ root
      ∷ [])

  -- `main`, with the values of `--root` and `--only`; the lines that it prints.
  unfoldable pub main : Text → Option Text → Io (List Text)
  main root only = build_modules (select_modules only) start >>= λ p.
      sync_managed_artifacts host p.generated p.selected (is_full only) >>= λ removed.
      pure (p.printed ++ (clean_line removed ++ (total_line root p ∷ [])))
