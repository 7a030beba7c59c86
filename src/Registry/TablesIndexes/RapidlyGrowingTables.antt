-- ===== src/Registry/TablesIndexes/RapidlyGrowingTables.antt =====
-- tools/repo_builder/wf_tables_indexes.py: the workflow `rapidly-growing-tables`.
use postgres_dbre.Prelude.{[], ◌∷◌}
use postgres_dbre.Text.{codes}
use postgres_dbre.Model.{Workflow}
use postgres_dbre.Helpers.{sql_script, sql_script_defaults}
use postgres_dbre.SqlBlocks.Storage.{table_growth_rate_from_snapshot}
use postgres_dbre.Registry.TablesIndexes.Category.{category_slug, category_title}

unfoldable pub rapidly_growing_tables_workflow : Workflow
rapidly_growing_tables_workflow = record {
  category_slug = category_slug;
  category_title = category_title;
  slug = codes "rapidly-growing-tables";
  title = codes "Rapidly Growing Tables";
  summary =
      codes
        "Identifies which tables are growing fastest (not just which are currently largest), the more actionable signal for proactive capacity planning, partitioning, and archiving prioritization.";
  symptoms =
      codes "Overall database storage growth trend exceeds expectations."
      ∷ codes "A specific table's size has doubled within an unexpectedly short window."
      ∷ [];
  business_impact =
      codes
        "A rapidly growing table will become tomorrow's largest-table problem; catching growth rate early gives more lead time for a partitioning/archiving decision than waiting until it is already enormous."
      ∷ [];
  root_causes =
      codes "Organic business growth (more users, more trades)."
      ∷ codes "A new feature writing at a much higher rate than anticipated."
      ∷ codes "A missing archiving/retention mechanism allowing indefinite accumulation."
      ∷ [];
  investigation_strategy =
      codes
        "Requires historical snapshots (see automation/growth-monitoring) to compute a genuine growth rate, not just a single point-in-time size."
      ∷ codes "Compare growth rate against the largest-tables inventory to prioritize."
      ∷ [];
  prerequisites =
      codes
        "A historical size-tracking table populated by automation/growth-monitoring; without it, this workflow can only establish current state, not a rate."
      ∷ [];
  interpretation_guide =
      codes
        "A small table growing 10x/month is a more urgent long-term concern than a huge table growing 1%/month, even though the huge table is 'larger' today."
      ∷ [];
  remediation_immediate = codes "N/A." ∷ [];
  remediation_short_term =
      codes
        "Flag rapidly growing tables for investigate-partitioning-candidate / investigate-archiving-candidate assessment."
      ∷ [];
  remediation_long_term =
      codes
        "Ensure automation/growth-monitoring is actively populating historical snapshots so this workflow remains usable over time."
      ∷ [];
  production_safety = codes "Read-only." ∷ [];
  escalation_criteria =
      codes
        "A core financial table's growth rate significantly exceeds the capacity plan's assumptions -- escalate to capacity planning/database engineering leadership."
      ∷ [];
  related_issues =
      codes "../large-tables/README.md" ∷ codes "../../automation/growth-monitoring/README.md" ∷ [];
  scripts =
      sql_script (codes "01") (codes "01_growth_rate_from_history")
        (codes
          "Computes growth over a lookback window using a historical size-tracking table populated by automation/growth-monitoring.")
        table_growth_rate_from_snapshot
        (codes
          "Requires automation/growth-monitoring's collector to already be populating dba_toolkit.table_size_history; without history, fall back to large-tables for a current-state-only view.")
        (record sql_script_defaults {
          related_scripts = codes "../../automation/growth-monitoring/README.md";
        })
      ∷ [];
  aurora_notes = [];
  execution_guidance = codes "";
  expected_output_guidance = codes "";
  severe_incident_guidance = codes "";
}
