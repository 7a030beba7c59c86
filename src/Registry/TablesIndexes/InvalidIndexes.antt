-- ===== src/Registry/TablesIndexes/InvalidIndexes.antt =====
-- tools/repo_builder/wf_tables_indexes.py: the workflow `invalid-indexes`.
use postgres_dbre.Prelude.{[], ◌∷◌}
use postgres_dbre.Text.{codes}
use postgres_dbre.Model.{Workflow}
use postgres_dbre.Helpers.{sql_script, sql_script_defaults}
use postgres_dbre.SqlBlocks.Indexes.{invalid_indexes}
use postgres_dbre.Registry.TablesIndexes.Category.{category_slug, category_title}

unfoldable pub invalid_indexes_workflow : Workflow
invalid_indexes_workflow = record {
  category_slug = category_slug;
  category_title = category_title;
  slug = codes "invalid-indexes";
  title = codes "Invalid Indexes";
  summary =
      codes
        "Finds indexes left in an INVALID state after a failed CREATE INDEX CONCURRENTLY or REINDEX CONCURRENTLY -- unused by the planner, but still consuming storage and write overhead until removed and, if needed, rebuilt.";
  symptoms =
      codes
        "A recent plan regression on a table where a CONCURRENTLY index build was recently attempted."
      ∷ codes "Unexplained storage growth from an index providing no query benefit."
      ∷ [];
  business_impact =
      codes
        "An invalid index provides zero planner benefit while still paying its full write-overhead and storage cost -- and its presence often directly explains a co-occurring plan regression (see performance/query-regression)."
      ∷ [];
  root_causes =
      codes
        "A CREATE INDEX CONCURRENTLY or REINDEX CONCURRENTLY was interrupted (killed session, statement_timeout, deadlock) partway through."
      ∷ [];
  investigation_strategy =
      codes "List all invalid indexes."
      ∷ codes
          "Drop each (a normal, fast DROP INDEX is safe since an invalid index is never in use) and rebuild with CONCURRENTLY if the index is still needed."
      ∷ [];
  prerequisites = codes "DDL privileges to drop/rebuild." ∷ [];
  interpretation_guide =
      codes
        "Any result here is unambiguous -- an invalid index has zero query benefit and should either be dropped (if no longer needed) or rebuilt (if still needed), not left in place."
      ∷ [];
  remediation_immediate =
      codes
        "Drop the invalid index if identified as the cause of an active plan regression, then immediately rebuild with CONCURRENTLY if it is still needed."
      ∷ [];
  remediation_short_term =
      codes
        "Audit recent CONCURRENTLY build failures to understand why they were interrupted (a too-aggressive statement_timeout on the migration role is a common cause)."
      ∷ [];
  remediation_long_term =
      codes
        "Add a post-migration automated check for invalid indexes to deployment pipelines (see database-health/post-deployment-check)."
      ∷ [];
  production_safety =
      codes
        "Dropping an invalid index is safe and low-risk (it is never used by the planner). Rebuilding uses CREATE INDEX CONCURRENTLY per schema-changes guidance."
      ∷ [];
  escalation_criteria =
      codes
        "None typical -- straightforward once found, though the underlying cause of the failed build should still be investigated."
      ∷ [];
  related_issues =
      codes "../../performance/query-regression/README.md"
      ∷ codes "../../schema-changes/failed-index-build/README.md"
      ∷ [];
  scripts =
      sql_script (codes "01") (codes "01_invalid_indexes")
        (codes "Lists all indexes currently in an INVALID state.") invalid_indexes
        (codes
          "Any result is actionable: drop it, and rebuild with CREATE INDEX CONCURRENTLY if still needed.")
        (record sql_script_defaults {
          related_scripts = codes "../../schema-changes/failed-index-build/README.md";
        })
      ∷ [];
  aurora_notes = [];
  execution_guidance = codes "";
  expected_output_guidance = codes "";
  severe_incident_guidance = codes "";
}
