-- ===== src/Registry/TablesIndexes/TableBloat.antt =====
-- tools/repo_builder/wf_tables_indexes.py: the workflow `table-bloat`.
use postgres_dbre.Prelude.{[], ◌∷◌}
use postgres_dbre.Text.{codes}
use postgres_dbre.Model.{Workflow}
use postgres_dbre.Helpers.{sql_script, sql_script_defaults}
use postgres_dbre.SqlBlocks.Vacuum.{pgstattuple_exact_bloat, table_bloat_estimate}
use postgres_dbre.Registry.TablesIndexes.Category.{category_slug, category_title}

unfoldable pub table_bloat_workflow : Workflow
table_bloat_workflow = record {
  category_slug = category_slug;
  category_title = category_title;
  slug = codes "table-bloat";
  title = codes "Table Bloat (Tables-and-Indexes View)";
  summary =
      codes
        "Table/index-health-focused entry point for table bloat investigation; see vacuum-and-autovacuum/table-bloat for the vacuum-lifecycle perspective on the same underlying issue.";
  symptoms = codes "Table on-disk size much larger than expected for its live row count." ∷ [];
  business_impact =
      codes "Bloat increases storage cost and the number of pages scanned per query." ∷ [];
  root_causes =
      codes "See vacuum-and-autovacuum/table-bloat for the complete root-cause list." ∷ [];
  investigation_strategy =
      codes "Estimate bloat via the catalog-only proxy."
      ∷ codes "Confirm with pgstattuple for top candidates."
      ∷ codes "Plan remediation per vacuum-and-autovacuum/table-bloat / maintenance/."
      ∷ [];
  prerequisites = codes "pgstattuple optional for exact confirmation." ∷ [];
  interpretation_guide =
      codes "See vacuum-and-autovacuum/table-bloat's interpretation guidance." ∷ [];
  remediation_immediate = codes "None -- planned action." ∷ [];
  remediation_short_term =
      codes
        "Confirm autovacuum is keeping pace (autovacuum-not-keeping-up) before considering a space-reclaiming operation."
      ∷ [];
  remediation_long_term =
      codes
        "Schedule a maintenance-window VACUUM FULL/pg_repack if confirmed severe (see maintenance/)."
      ∷ [];
  production_safety =
      codes
        "Investigation is read-only; pgstattuple's exact scan can be I/O intensive on very large tables."
      ∷ [];
  escalation_criteria = codes "Same as vacuum-and-autovacuum/table-bloat." ∷ [];
  related_issues =
      codes "../../vacuum-and-autovacuum/table-bloat/README.md"
      ∷ codes "../../maintenance/README.md"
      ∷ [];
  scripts =
      sql_script (codes "01") (codes "01_bloat_estimate_catalog_only")
        (codes "Lightweight, lock-free bloat proxy.") table_bloat_estimate
        (codes "Use to triage which tables merit the exact pgstattuple confirmation in script 02.")
        (record sql_script_defaults { related_scripts = codes "02_exact_bloat_pgstattuple.sql" })
      ∷ sql_script (codes "02") (codes "02_exact_bloat_pgstattuple")
          (codes "Exact physical bloat scan for one specific table.") pgstattuple_exact_bloat
          (codes
            "free_pct + dead_tuple_pct above 30-40% on a large table is a strong candidate for a scheduled space-reclaiming operation.")
          (record sql_script_defaults {
            safety =
                codes
                  "READ ONLY (may be resource intensive on very large tables -- see EXPECTED IMPACT)";
            expected_impact =
                codes "Full or sampled table scan; can be I/O-intensive on very large tables.";
            prerequisites = codes "pgstattuple extension must be created in the current database.";
            related_scripts = codes "../../maintenance/README.md";
          })
      ∷ [];
  aurora_notes = [];
  execution_guidance = codes "";
  expected_output_guidance = codes "";
  severe_incident_guidance = codes "";
}
