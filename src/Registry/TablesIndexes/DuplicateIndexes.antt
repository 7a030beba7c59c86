-- ===== src/Registry/TablesIndexes/DuplicateIndexes.antt =====
-- tools/repo_builder/wf_tables_indexes.py: the workflow `duplicate-indexes`.
use postgres_dbre.Prelude.{[], ◌∷◌}
use postgres_dbre.Text.{codes}
use postgres_dbre.Model.{Workflow}
use postgres_dbre.Helpers.{sql_script, sql_script_defaults}
use postgres_dbre.SqlBlocks.Indexes.{duplicate_indexes}
use postgres_dbre.Registry.TablesIndexes.Category.{category_slug, category_title}

unfoldable pub duplicate_indexes_workflow : Workflow
duplicate_indexes_workflow = record {
  category_slug = category_slug;
  category_title = category_title;
  slug = codes "duplicate-indexes";
  title = codes "Duplicate Indexes";
  summary =
      codes
        "Identifies structurally identical or fully redundant indexes on the same table -- pure waste with no tradeoff, unlike unused-indexes which requires judgment about rare query patterns.";
  symptoms =
      codes "Two or more indexes on the same table with the same columns/expressions/predicate."
      ∷ [];
  business_impact =
      codes
        "Duplicate indexes are unambiguous waste: every one adds write overhead and storage without any additional query benefit over its twin."
      ∷ [];
  root_causes =
      codes "An ORM or migration tool creating an index that already existed manually."
      ∷ codes "A renamed/recreated index left alongside its original instead of replacing it."
      ∷ codes "Independent teams adding the same index unaware of each other's prior work."
      ∷ [];
  investigation_strategy =
      codes "Find indexes with matching normalized definitions on the same table."
      ∷ codes
          "Confirm neither is required for a differently-named constraint before dropping either."
      ∷ [];
  prerequisites = codes "pg_monitor role membership." ∷ [];
  interpretation_guide =
      codes
        "Unlike unused-indexes, true structural duplicates provide no scenario where keeping both is beneficial -- the only decision is which one to keep (usually the one with the more descriptive name, or the one backing a constraint)."
      ∷ [];
  remediation_immediate = codes "None -- always a planned, reviewed action." ∷ [];
  remediation_short_term =
      codes
        "Drop the redundant duplicate using `DROP INDEX CONCURRENTLY` (see schema-changes/drop-index-safely), keeping only one copy."
      ∷ [];
  remediation_long_term =
      codes "Add a duplicate-index check to CI/migration review to prevent recurrence." ∷ [];
  production_safety =
      codes
        "Investigation script is read-only; drop guidance follows schema-changes/drop-index-safely's safety practices."
      ∷ [];
  escalation_criteria =
      codes "None typical -- this is usually a low-risk, straightforward cleanup once confirmed."
      ∷ [];
  related_issues =
      codes "../unused-indexes/README.md"
      ∷ codes "../../schema-changes/drop-index-safely/README.md"
      ∷ [];
  scripts =
      sql_script (codes "01") (codes "01_duplicate_indexes")
        (codes "Finds indexes with identical normalized definitions on the same table.")
        duplicate_indexes
        (codes
          "Prefer keeping the index backing a constraint (if any) or the one with the clearer name; drop the other via DROP INDEX CONCURRENTLY.")
        (record sql_script_defaults {
          related_scripts = codes "../../schema-changes/drop-index-safely/README.md";
        })
      ∷ [];
  aurora_notes = [];
  execution_guidance = codes "";
  expected_output_guidance = codes "";
  severe_incident_guidance = codes "";
}
