-- ===== src/Registry/TablesIndexes/LargeTables.antt =====
-- tools/repo_builder/wf_tables_indexes.py: the workflow `large-tables`.
use postgres_dbre.Prelude.{[], ◌∷◌}
use postgres_dbre.Text.{codes}
use postgres_dbre.Model.{Workflow}
use postgres_dbre.Helpers.{sql_script, sql_script_defaults}
use postgres_dbre.SqlBlocks.Storage.{largest_indexes, largest_tables}
use postgres_dbre.Registry.TablesIndexes.Category.{category_slug, category_title}

unfoldable pub large_tables_workflow : Workflow
large_tables_workflow = record {
  category_slug = category_slug;
  category_title = category_title;
  slug = codes "large-tables";
  title = codes "Large Tables Inventory";
  summary =
      codes
        "Routine inventory of the largest tables/indexes in the database, used as a starting point for capacity planning, partitioning, and archiving decisions.";
  symptoms = codes "No specific symptom -- routine inventory/health-check workflow." ∷ [];
  business_impact =
      codes
        "Knowing which tables are largest (and growing fastest) focuses capacity, partitioning, and archiving effort where it matters most."
      ∷ [];
  root_causes = codes "N/A." ∷ [];
  investigation_strategy =
      codes "List largest tables and indexes by total size."
      ∷ codes
          "Cross-reference against partitioning-and-archival candidacy workflows for the biggest entries."
      ∷ [];
  prerequisites = codes "pg_monitor role membership." ∷ [];
  interpretation_guide =
      codes
        "Rank by total_size (heap + indexes + TOAST), not just heap size, for an accurate capacity picture."
      ∷ [];
  remediation_immediate = codes "N/A." ∷ [];
  remediation_short_term = codes "N/A." ∷ [];
  remediation_long_term =
      codes
        "Feed this inventory into storage-and-capacity/capacity-forecasting on a recurring basis."
      ∷ [];
  production_safety = codes "Read-only." ∷ [];
  escalation_criteria = codes "N/A." ∷ [];
  related_issues =
      codes "../rapidly-growing-tables/README.md"
      ∷ codes "../../storage-and-capacity/capacity-forecasting/README.md"
      ∷ [];
  scripts =
      sql_script (codes "01") (codes "01_largest_tables")
        (codes "Lists the largest tables by total size.") largest_tables
        (codes
          "The top entries here are your primary candidates for partitioning/archiving investigation.")
        (record sql_script_defaults { related_scripts = codes "02_largest_indexes.sql" })
      ∷ sql_script (codes "02") (codes "02_largest_indexes")
          (codes "Lists the largest indexes by size.") largest_indexes
          (codes
            "A very large index relative to its table's size may indicate bloat (see index-bloat) rather than genuinely large data volume.")
          (record sql_script_defaults {
            related_scripts = codes "../rapidly-growing-tables/README.md";
          })
      ∷ [];
  aurora_notes = [];
  execution_guidance = codes "";
  expected_output_guidance = codes "";
  severe_incident_guidance = codes "";
}
