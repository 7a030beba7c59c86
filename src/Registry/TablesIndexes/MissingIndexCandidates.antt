-- ===== src/Registry/TablesIndexes/MissingIndexCandidates.antt =====
-- tools/repo_builder/wf_tables_indexes.py: the workflow `missing-index-candidates`.
use postgres_dbre.Prelude.{[], ◌∷◌}
use postgres_dbre.Text.{codes}
use postgres_dbre.Model.{Workflow}
use postgres_dbre.Helpers.{sql_script, sql_script_defaults}
use postgres_dbre.SqlBlocks.Indexes.{foreign_keys_missing_index, sequential_scan_heavy_tables}
use postgres_dbre.Registry.TablesIndexes.Category.{category_slug, category_title}

unfoldable pub missing_index_candidates_workflow : Workflow
missing_index_candidates_workflow = record {
  category_slug = category_slug;
  category_title = category_title;
  slug = codes "missing-index-candidates";
  title = codes "Missing Index Candidates";
  summary =
      codes
        "Identifies tables/query patterns that would likely benefit from a new index -- unindexed foreign keys, and tables with heavy sequential scans relative to their size.";
  symptoms =
      codes
        "Queries filtering/joining on a column with no supporting index, visible as high seq_scan/seq_tup_read in pg_stat_all_tables."
      ∷ codes
          "UPDATE/DELETE on a parent row taking noticeably long due to an unindexed FK on the child table."
      ∷ [];
  business_impact =
      codes
        "A missing index on a hot query path is one of the most common and highest-leverage fixes for both high-cpu and slow-queries incidents."
      ∷ [];
  root_causes =
      codes "A new query pattern shipped without an accompanying index."
      ∷ codes "A foreign key added without a supporting index on the referencing column(s)."
      ∷ codes
          "Data growth crossed the threshold where a sequential scan is no longer efficient for a previously-fine query."
      ∷ [];
  investigation_strategy =
      codes "Check for unindexed foreign keys."
      ∷ codes "Check for sequential-scan-heavy tables."
      ∷ codes
          "Confirm against actual query patterns (pg_stat_statements) before adding an index speculatively."
      ∷ [];
  prerequisites = codes "pg_stat_statements recommended for confirming the query pattern." ∷ [];
  interpretation_guide =
      codes
        "Add indexes based on confirmed query patterns, not just theoretical schema analysis -- an unindexed FK that is never used in a JOIN/lookup direction may not need an index despite appearing in this report."
      ∷ [];
  remediation_immediate =
      codes
        "None -- always add indexes deliberately, never as an emergency same-incident action unless directly resolving an active severe incident with full understanding of the tradeoffs."
      ∷ [];
  remediation_short_term =
      codes
        "Add the identified index using `CREATE INDEX CONCURRENTLY` (see schema-changes/concurrent-index-build)."
      ∷ [];
  remediation_long_term =
      codes
        "Add FK-index-coverage and query-pattern review to the standard schema/migration review checklist."
      ∷ [];
  production_safety =
      codes
        "Investigation scripts are read-only; index creation must always use CONCURRENTLY per schema-changes guidance."
      ∷ [];
  escalation_criteria =
      codes
        "A confirmed missing index is on an extremely large, hot table where even a CONCURRENTLY build carries meaningful resource-consumption risk -- coordinate a build window with the owning team."
      ∷ [];
  related_issues =
      codes "../sequential-scan-investigation/README.md"
      ∷ codes "../../schema-changes/concurrent-index-build/README.md"
      ∷ [];
  scripts =
      sql_script (codes "01") (codes "01_unindexed_foreign_keys")
        (codes
          "Finds foreign key constraints with no supporting index on the referencing (child) columns.")
        foreign_keys_missing_index
        (codes
          "Every result here is a near-certain candidate for a supporting index, since unindexed FKs cause sequential scans on the child table for every parent-row UPDATE/DELETE.")
        (record sql_script_defaults {
          related_scripts = codes "02_sequential_scan_heavy_tables.sql";
        })
      ∷ sql_script (codes "02") (codes "02_sequential_scan_heavy_tables")
          (codes
            "Finds large tables with a high sequential-scan-to-row-read ratio, a proxy for a missing index on a filter/join column.")
          sequential_scan_heavy_tables
          (codes
            "Cross-reference against pg_stat_statements query text for these tables to identify the specific column(s) driving the scans before adding an index.")
          (record sql_script_defaults {
            related_scripts = codes "../../schema-changes/concurrent-index-build/README.md";
          })
      ∷ [];
  aurora_notes = [];
  execution_guidance = codes "";
  expected_output_guidance = codes "";
  severe_incident_guidance = codes "";
}
