-- ===== src/Registry/TablesIndexes/UnusedIndexes.antt =====
-- tools/repo_builder/wf_tables_indexes.py: the workflow `unused-indexes`.
use postgres_dbre.Prelude.{[], ◌∷◌}
use postgres_dbre.Text.{codes}
use postgres_dbre.Model.{Workflow}
use postgres_dbre.Helpers.{sql_script, sql_script_defaults}
use postgres_dbre.SqlBlocks.Vacuum.{unused_indexes}
use postgres_dbre.Registry.TablesIndexes.Category.{category_slug, category_title}

unfoldable pub unused_indexes_workflow : Workflow
unused_indexes_workflow = record {
  category_slug = category_slug;
  category_title = category_title;
  slug = codes "unused-indexes";
  title = codes "Unused Indexes";
  summary =
      codes
        "Identifies indexes that appear to receive zero or negligible scans, representing pure write-amplification and storage cost with no measured query benefit -- while explicitly guarding against premature removal.";
  symptoms =
      codes "Elevated write latency/WAL volume on tables with many indexes."
      ∷ codes "Storage growth attributable to index size rather than table size."
      ∷ [];
  business_impact =
      codes
        "Every index adds overhead to every INSERT/UPDATE/DELETE on its table; an unused index is pure cost on the hottest part of the workload (writes) for zero benefit."
      ∷ [];
  root_causes =
      codes
        "An index created for a query pattern that was later removed/changed in application code."
      ∷ codes "A speculative index added 'just in case' that never proved necessary."
      ∷ codes
          "An index that only supports a rare (e.g. quarterly reporting) query and looks unused within a short observation window."
      ∷ [];
  investigation_strategy =
      codes "List candidate unused indexes (idx_scan = 0), excluding those backing a constraint."
      ∷ codes
          "Cross-check stats_reset / instance uptime to ensure the observation window is long enough to be meaningful (must span at least one full business cycle)."
      ∷ codes "Confirm with the owning application team before dropping anything."
      ∷ [];
  prerequisites =
      codes "pg_monitor role membership."
      ∷ codes
          "Confidence that no failover/restart has reset statistics recently (which would make idx_scan = 0 look artificially alarming)."
      ∷ [];
  interpretation_guide =
      codes
        "idx_scan = 0 since the last stats reset is necessary but NOT sufficient evidence to drop an index -- always check stats_reset age and confirm the query pattern that would use this index truly no longer exists (including rare batch/reporting jobs)."
      ∷ [];
  remediation_immediate = codes "None -- index removal is always a planned, reviewed action." ∷ [];
  remediation_short_term =
      codes
        "For a confirmed-unused, non-constraint-backing index, drop it with `DROP INDEX CONCURRENTLY` (see schema-changes/drop-index-safely) during a low-traffic window, keeping the index definition saved in case it needs to be recreated."
      ∷ [];
  remediation_long_term =
      codes
        "Add a periodic (e.g. quarterly) unused-index review to standing operational practice (see automation/index-monitoring) rather than a one-off cleanup."
      ∷ [];
  production_safety =
      codes "The investigation script is read-only."
      ∷ codes
          "Never drop an index the same day it is found 'unused' without confirming the observation window is long enough and the owning team has been consulted."
      ∷ [];
  escalation_criteria =
      codes
        "An index appears unused but is suspected to back a rare, business-critical batch/compliance job -- escalate to the owning team before any action."
      ∷ [];
  related_issues =
      codes "../duplicate-indexes/README.md"
      ∷ codes "../../schema-changes/drop-index-safely/README.md"
      ∷ [];
  scripts =
      sql_script (codes "01") (codes "01_unused_index_candidates")
        (codes "Lists candidate unused indexes, excluding those backing a constraint.")
        unused_indexes
        (codes
          "Cross-check the instance's stats_reset/uptime before treating any result as conclusive; a recently restarted/failed-over instance will show idx_scan = 0 for everything.")
        (record sql_script_defaults {
          related_scripts = codes "../../schema-changes/drop-index-safely/README.md";
        })
      ∷ [];
  aurora_notes = [];
  execution_guidance = codes "";
  expected_output_guidance = codes "";
  severe_incident_guidance = codes "";
}
