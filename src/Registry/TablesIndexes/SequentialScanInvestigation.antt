-- ===== src/Registry/TablesIndexes/SequentialScanInvestigation.antt =====
-- tools/repo_builder/wf_tables_indexes.py: the workflow `sequential-scan-investigation`.
use postgres_dbre.Prelude.{[], ◌∷◌}
use postgres_dbre.Text.{codes}
use postgres_dbre.Model.{Workflow}
use postgres_dbre.Helpers.{sql_script, sql_script_defaults}
use postgres_dbre.SqlBlocks.Indexes.{sequential_scan_heavy_tables, statistics_freshness}
use postgres_dbre.Registry.TablesIndexes.Category.{category_slug, category_title}

unfoldable pub sequential_scan_investigation_workflow : Workflow
sequential_scan_investigation_workflow = record {
  category_slug = category_slug;
  category_title = category_title;
  slug = codes "sequential-scan-investigation";
  title = codes "Sequential Scan Investigation";
  summary =
      codes
        "Deep-dive investigation into why a specific table or query is using a sequential scan instead of an expected index scan.";
  symptoms =
      codes
        "A specific query's EXPLAIN plan shows Seq Scan on a large table where an Index Scan was expected."
      ∷ [];
  business_impact =
      codes
        "An unexpected sequential scan on a large hot table is a direct, often severe, latency and CPU/IO cost."
      ∷ [];
  root_causes =
      codes "No index exists for the query's predicate."
      ∷ codes
          "An index exists but the planner chose not to use it (poor selectivity estimate from stale statistics, or the predicate uses a function/cast the index cannot support)."
      ∷ codes
          "The table is small enough that the planner correctly judges a sequential scan cheaper (not actually a problem)."
      ∷ [];
  investigation_strategy =
      codes "Confirm table size -- a seq scan on a genuinely small table is expected and fine."
      ∷ codes "Check for an existing, usable index matching the query's predicate."
      ∷ codes
          "Check statistics freshness, since stale stats can cause the planner to misjudge selectivity and skip a usable index."
      ∷ codes "Obtain EXPLAIN to see the planner's actual reasoning/estimates."
      ∷ [];
  prerequisites = codes "Query text/plan for the specific case under investigation." ∷ [];
  interpretation_guide =
      codes
        "A sequential scan on a table under a few thousand rows (or a few MB) is frequently the CORRECT and fastest plan -- do not chase 'seq_scan > 0' as inherently bad; focus on large tables where the ratio of rows read to rows returned is poor."
      ∷ [];
  remediation_immediate = codes "None -- diagnose before acting." ∷ [];
  remediation_short_term =
      codes
        "Add a targeted index if none exists and the table/row-selectivity justifies one; refresh statistics if staleness is the cause."
      ∷ [];
  remediation_long_term =
      codes "See missing-index-candidates for the broader, table-wide review." ∷ [];
  production_safety =
      codes "Investigation is read-only; EXPLAIN (without ANALYZE) never executes the query." ∷ [];
  escalation_criteria =
      codes
        "The planner ignores an existing, seemingly-appropriate index even with fresh statistics -- escalate to query-optimization/analyze-query-plan for a deeper plan-level investigation."
      ∷ [];
  related_issues =
      codes "../missing-index-candidates/README.md"
      ∷ codes "../../query-optimization/analyze-query-plan/README.md"
      ∷ [];
  scripts =
      sql_script (codes "01") (codes "01_sequential_scan_heavy_tables")
        (codes "Confirms which tables are experiencing the most sequential-scan read volume.")
        sequential_scan_heavy_tables
        (codes
          "Focus only on tables large enough (check table_size) that a seq scan is genuinely costly -- small tables in this list are not a concern.")
        (record sql_script_defaults { related_scripts = codes "02_statistics_freshness.sql" })
      ∷ sql_script (codes "02") (codes "02_statistics_freshness")
          (codes
            "Checks whether stale statistics could be causing the planner to misjudge selectivity and avoid an existing index.")
          statistics_freshness
          (codes
            "If statistics are stale, run a targeted ANALYZE and re-check the query's plan before concluding an index is actually missing.")
          (record sql_script_defaults {
            related_scripts = codes "../../vacuum-and-autovacuum/analyze-statistics/README.md";
          })
      ∷ [];
  aurora_notes = [];
  execution_guidance = codes "";
  expected_output_guidance = codes "";
  severe_incident_guidance = codes "";
}
