-- ===== src/Registry/TablesIndexes/IndexBloat.antt =====
-- tools/repo_builder/wf_tables_indexes.py: the workflow `index-bloat`.
use postgres_dbre.Prelude.{[], ◌∷◌}
use postgres_dbre.Text.{codes}
use postgres_dbre.Model.{Workflow}
use postgres_dbre.Helpers.{sql_script, sql_script_defaults}
use postgres_dbre.SqlBlocks.Vacuum.{index_bloat_and_usage}
use postgres_dbre.Registry.TablesIndexes.Category.{category_slug, category_title}

unfoldable pub index_bloat_workflow : Workflow
index_bloat_workflow = record {
  category_slug = category_slug;
  category_title = category_title;
  slug = codes "index-bloat";
  title = codes "Index Bloat (Tables-and-Indexes View)";
  summary =
      codes
        "Table/index-health-focused entry point for index bloat investigation; see vacuum-and-autovacuum/index-bloat for the vacuum-lifecycle perspective on the same underlying issue.";
  symptoms =
      codes "Index size disproportionate to table row count."
      ∷ codes "Index scan latency degrading over time."
      ∷ [];
  business_impact =
      codes
        "Bloated indexes on hot lookup paths directly increase the latency of the most frequent queries."
      ∷ [];
  root_causes =
      codes "High UPDATE churn on indexed columns without full space reclamation."
      ∷ codes "See vacuum-and-autovacuum/index-bloat for the complete root-cause list."
      ∷ [];
  investigation_strategy =
      codes "Rank indexes by size and usage."
      ∷ codes "Confirm bloat with pgstattuple if a precise figure is needed."
      ∷ codes "Plan a REINDEX CONCURRENTLY if confirmed."
      ∷ [];
  prerequisites =
      codes "pg_monitor role membership; pgstattuple optional for exact confirmation." ∷ [];
  interpretation_guide =
      codes
        "See vacuum-and-autovacuum/index-bloat's interpretation guidance -- this workflow exists as the tables-and-indexes-category entry point to the same investigation for discoverability."
      ∷ [];
  remediation_immediate = codes "None -- planned action." ∷ [];
  remediation_short_term = codes "REINDEX INDEX CONCURRENTLY during a lower-traffic window." ∷ [];
  remediation_long_term =
      codes "See vacuum-and-autovacuum/autovacuum-not-keeping-up for the systemic prevention angle."
      ∷ [];
  production_safety =
      codes
        "Investigation is read-only; REINDEX CONCURRENTLY guidance is in schema-changes/concurrent-index-build."
      ∷ [];
  escalation_criteria = codes "Same as vacuum-and-autovacuum/index-bloat." ∷ [];
  related_issues =
      codes "../../vacuum-and-autovacuum/index-bloat/README.md"
      ∷ codes "../../schema-changes/concurrent-index-build/README.md"
      ∷ [];
  scripts =
      sql_script (codes "01") (codes "01_index_bloat_and_usage")
        (codes "Index size and usage statistics to identify large, potentially bloated indexes.")
        index_bloat_and_usage
        (codes
          "Cross-reference with vacuum-and-autovacuum/index-bloat for the exact pgstattuple confirmation script and REINDEX CONCURRENTLY guidance.")
        (record sql_script_defaults {
          related_scripts =
              codes "../../vacuum-and-autovacuum/index-bloat/scripts/01_index_bloat_and_usage.sql";
        })
      ∷ [];
  aurora_notes = [];
  execution_guidance = codes "";
  expected_output_guidance = codes "";
  severe_incident_guidance = codes "";
}
