-- ===== src/Registry/TablesIndexes/TableAccessPatterns.antt =====
-- tools/repo_builder/wf_tables_indexes.py: the workflow `table-access-patterns`.
use postgres_dbre.Prelude.{[], ◌∷◌}
use postgres_dbre.Text.{codes}
use postgres_dbre.Model.{Workflow}
use postgres_dbre.Helpers.{sql_script, sql_script_defaults}
use postgres_dbre.Render.{lines}
use postgres_dbre.Registry.TablesIndexes.Category.{category_slug, category_title}

unfoldable pub table_access_patterns_workflow : Workflow
table_access_patterns_workflow = record {
  category_slug = category_slug;
  category_title = category_title;
  slug = codes "table-access-patterns";
  title = codes "Table Access Pattern Analysis";
  summary =
      codes
        "Characterizes how a table is actually accessed (read-heavy vs write-heavy, sequential vs index-driven, hot vs cold) to inform indexing, partitioning, and caching decisions.";
  symptoms =
      codes
        "Uncertainty about whether a table is a good candidate for a specific optimization (index, partition, cache) without first understanding its actual access pattern."
      ∷ [];
  business_impact =
      codes
        "Optimizing a table without understanding its real access pattern risks solving the wrong problem (e.g. adding an index to a write-heavy table with few reads, adding write overhead for no benefit)."
      ∷ [];
  root_causes = codes "N/A -- diagnostic/characterization workflow." ∷ [];
  investigation_strategy =
      codes "Compare read (seq_scan + idx_scan) vs write (n_tup_ins/upd/del) volume."
      ∷ codes "Compare index scan vs sequential scan ratio."
      ∷ codes
          "Cross-reference with pg_stat_statements for the specific query shapes touching the table."
      ∷ [];
  prerequisites = codes "pg_stat_statements recommended." ∷ [];
  interpretation_guide =
      codes
        "A table with n_tup_upd/n_tup_ins far exceeding idx_scan+seq_scan is write-dominated -- index additions should be weighed carefully against their write-amplification cost. A table with the reverse ratio is read-dominated and a better candidate for additional indexing."
      ∷ [];
  remediation_immediate = codes "N/A." ∷ [];
  remediation_short_term =
      codes
        "Route the finding into the appropriate specific workflow (missing-index-candidates for read-heavy tables needing better index coverage, vacuum-and-autovacuum for write-heavy tables needing more aggressive vacuum tuning)."
      ∷ [];
  remediation_long_term =
      codes
        "Document known access patterns for the platform's core tables (orders, balances, ledger) as living architecture documentation."
      ∷ [];
  production_safety = codes "Read-only." ∷ [];
  escalation_criteria = codes "N/A." ∷ [];
  related_issues =
      codes "../missing-index-candidates/README.md"
      ∷ codes "../../vacuum-and-autovacuum/autovacuum-not-keeping-up/README.md"
      ∷ [];
  scripts =
      sql_script (codes "01") (codes "01_read_write_ratio")
        (codes
          "Compares read activity (scans) against write activity (inserts/updates/deletes) per table.")
        (lines (
          codes "-- Read vs. write activity ratio per table, to characterize its access"
          ∷ codes "-- pattern for indexing/partitioning/caching decisions."
          ∷ codes "SELECT"
          ∷ codes "    schemaname                                                  AS schema_name,"
          ∷ codes "    relname                                                     AS table_name,"
          ∷ codes "    seq_scan + idx_scan                                          AS total_reads,"
          ∷ codes
              "    n_tup_ins + n_tup_upd + n_tup_del                             AS total_writes,"
          ∷ codes "    round("
          ∷ codes "        (seq_scan + idx_scan)::numeric /"
          ∷ codes "        NULLIF(n_tup_ins + n_tup_upd + n_tup_del, 0),"
          ∷ codes "        2"
          ∷ codes
              "    )                                                            AS read_write_ratio"
          ∷ codes "FROM pg_stat_all_tables"
          ∷ codes "WHERE schemaname NOT IN ('pg_catalog', 'information_schema')"
          ∷ codes "ORDER BY (seq_scan + idx_scan) + (n_tup_ins + n_tup_upd + n_tup_del) DESC"
          ∷ codes "LIMIT 30;"
          ∷ []))
        (codes
          "A read_write_ratio well above 1 indicates a read-dominated table (a good indexing candidate); well below 1 indicates a write-dominated table (prioritize vacuum tuning and be cautious about adding write-amplifying indexes).")
        (record sql_script_defaults {
          related_scripts = codes "../missing-index-candidates/README.md";
        })
      ∷ [];
  aurora_notes = [];
  execution_guidance = codes "";
  expected_output_guidance = codes "";
  severe_incident_guidance = codes "";
}
