-- ===== src/Registry/Replication/ReaderPerformance.antt =====
-- tools/repo_builder/wf_replication.py: the workflow `reader-performance`.
use postgres_dbre.Prelude.{[], ◌∷◌}
use postgres_dbre.Text.{codes}
use postgres_dbre.Model.{Workflow}
use postgres_dbre.Helpers.{sql_script, sql_script_defaults}
use postgres_dbre.Render.{lines}
use postgres_dbre.SqlBlocks.Replication.{aurora_replica_status}
use postgres_dbre.Registry.Replication.Category.{category_slug, category_title}

unfoldable pub reader_performance_workflow : Workflow
reader_performance_workflow = record {
  category_slug = category_slug;
  category_title = category_title;
  slug = codes "reader-performance";
  title = codes "Reader Instance Performance";
  summary =
      codes
        "Investigates performance issues specific to an Aurora reader instance -- distinct from writer performance workflows, since readers have their own independent buffer cache, connection pool, and query load.";
  symptoms =
      codes
        "Read-only queries routed to a reader endpoint are slow, while the writer performs normally."
      ∷ codes
          "One specific reader in a multi-reader cluster underperforms relative to its siblings."
      ∷ [];
  business_impact =
      codes
        "Reader performance issues directly degrade any read-heavy, latency-sensitive feature deliberately offloaded to readers (market data display, order history, balance lookups) without necessarily showing up in writer-side monitoring."
      ∷ [];
  root_causes =
      codes
        "The reader instance is a smaller instance class than the writer and is undersized for the read traffic routed to it."
      ∷ codes "Reader-specific cold cache after a recent reboot/failover-related promotion."
      ∷ codes "An uneven query router sending disproportionate traffic to one specific reader."
      ∷ codes "Elevated reader lag itself causing query-side waits on recovery conflict resolution."
      ∷ [];
  investigation_strategy =
      codes "Confirm which specific reader is affected and its instance class."
      ∷ codes "Check its buffer cache hit ratio and current session/query load directly."
      ∷ codes "Check its replica lag, since very high lag can itself cause query delays."
      ∷ [];
  prerequisites =
      codes
        "Direct connection access to the specific reader instance (not just the reader load-balanced endpoint) to isolate a single-reader issue."
      ∷ [];
  interpretation_guide =
      codes
        "If all readers in the cluster show the issue equally, suspect a cluster-wide cause (write volume, lag) rather than an instance-specific one; if only one reader is affected, suspect instance-specific factors (recent restart, an uneven query router, or a hardware-level AWS issue worth a support case)."
      ∷ [];
  remediation_immediate =
      codes
        "Route traffic away from a specifically underperforming reader if your query router/application supports per-instance routing."
      ∷ [];
  remediation_short_term =
      codes
        "Scale the underperforming reader to match the others' instance class if it was provisioned smaller."
      ∷ [];
  remediation_long_term =
      codes
        "Ensure the reader fleet is sized and load-balanced appropriately for the read traffic volume (see storage-and-capacity/capacity-forecasting)."
      ∷ [];
  production_safety = codes "Investigation scripts are read-only." ∷ [];
  escalation_criteria =
      codes
        "A single reader underperforms with no explainable cause (matching instance class, matching lag, matching query load) -- open an AWS Support case for a possible instance-level hardware issue."
      ∷ [];
  related_issues =
      codes "../replication-lag/README.md" ∷ codes "../writer-reader-imbalance/README.md" ∷ [];
  scripts =
      sql_script (codes "01") (codes "01_reader_cache_and_load")
        (codes
          "Checks buffer cache hit ratio and current session load directly on the specific reader instance.")
        (lines (
          codes "-- Buffer cache hit ratio and active session count for the CURRENT"
          ∷ codes "-- connection's database -- run this connected directly to the specific"
          ∷ codes "-- reader instance under investigation, not the load-balanced reader"
          ∷ codes "-- endpoint, to isolate its individual state."
          ∷ codes "SELECT"
          ∷ codes "    (SELECT round(100.0 * blks_hit / NULLIF(blks_hit + blks_read, 0), 2)"
          ∷ codes
              "     FROM pg_stat_database WHERE datname = current_database())          AS cache_hit_ratio_pct,"
          ∷ codes
              "    (SELECT count(*) FROM pg_stat_activity WHERE state = 'active')      AS active_sessions,"
          ∷ codes
              "    (SELECT count(*) FROM pg_stat_activity)                             AS total_sessions,"
          ∷ codes
              "    pg_is_in_recovery()                                                 AS confirmed_reader;"
          ∷ []))
        (codes
          "confirmed_reader should be true; a low cache_hit_ratio_pct on this specific reader relative to its siblings points to a cold-cache or under-provisioned-instance-class issue for this instance specifically.")
        (record sql_script_defaults {
          execution_location = codes "Reader instance specifically";
          related_scripts = codes "02_reader_lag_check.sql";
        })
      ∷ sql_script (codes "02") (codes "02_reader_lag_check")
          (codes "Checks this specific reader's lag via the Aurora-native cluster function.")
          aurora_replica_status
          (codes
            "Find this reader's server_id in the result set; unusually high lag specifically for this reader (compared to siblings) can itself cause query-side delays via recovery conflict handling.")
          (record sql_script_defaults { related_scripts = codes "../replication-lag/README.md" })
      ∷ [];
  aurora_notes = [];
  execution_guidance = codes "";
  expected_output_guidance = codes "";
  severe_incident_guidance = codes "";
}
