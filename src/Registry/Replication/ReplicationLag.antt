-- ===== src/Registry/Replication/ReplicationLag.antt =====
-- tools/repo_builder/wf_replication.py: the workflow `replication-lag`.
use postgres_dbre.Prelude.{[], ◌∷◌}
use postgres_dbre.Text.{codes}
use postgres_dbre.Model.{Workflow}
use postgres_dbre.Helpers.{sql_script, sql_script_defaults, writer_only}
use postgres_dbre.SqlBlocks.Replication.{
  aurora_replica_status, standard_streaming_replication_status,
}
use postgres_dbre.SqlBlocks.Sessions.{active_long_running_queries}
use postgres_dbre.SqlBlocks.Storage.{wal_activity}
use postgres_dbre.Registry.Replication.Category.{category_slug, category_title}

unfoldable pub replication_lag_workflow : Workflow
replication_lag_workflow = record {
  category_slug = category_slug;
  category_title = category_title;
  slug = codes "replication-lag";
  title = codes "Replication Lag";
  summary =
      codes
        "Investigates elevated replication lag -- either Aurora's native storage-layer reader lag, or standard PostgreSQL streaming/logical replication lag to an external consumer -- and helps distinguish the two, since they are measured and caused differently.";
  symptoms =
      codes "Application reading from a reader endpoint sees stale data relative to a recent write."
      ∷ codes "CloudWatch AuroraReplicaLag metric elevated."
      ∷ codes "An external logical replication subscriber (CDC, DMS) falling further behind."
      ∷ [];
  business_impact =
      codes
        "Elevated reader lag directly risks read-after-write consistency bugs for any feature relying on reader-endpoint routing (e.g. reading an order immediately after placing it) -- a correctness risk, not just a performance one, in a financial platform."
      ∷ [];
  root_causes =
      codes "High write/WAL volume on the writer outpacing the reader's redo-apply rate."
      ∷ codes
          "A long-running query on the reader itself blocking redo application (Aurora readers can experience apply delay from local query conflicts, similar in spirit to standard PostgreSQL recovery conflicts)."
      ∷ codes
          "Reader instance under-provisioned (smaller instance class) relative to the writer's write rate."
      ∷ codes
          "For external logical replication: the subscriber itself is slow/down, or a network issue between publisher and subscriber."
      ∷ [];
  investigation_strategy =
      codes
        "Confirm which kind of lag is being observed: Aurora reader lag (use aurora_replica_status()) vs. standard streaming/logical replication lag (use pg_stat_replication on the writer)."
      ∷ codes "Check current WAL generation rate on the writer as a likely driver of reader lag."
      ∷ codes "Check for long-running queries on the specific lagging reader."
      ∷ codes
          "For external logical replication, check replication slot status for the specific subscriber."
      ∷ [];
  prerequisites = codes "pg_monitor role membership on both writer and reader instances." ∷ [];
  interpretation_guide =
      codes
        "Aurora reader lag (from aurora_replica_status()) and standard PostgreSQL pg_stat_replication lag measure fundamentally different things and are not interchangeable -- do not use pg_stat_replication to explain Aurora reader lag; it will not show Aurora readers at all."
      ∷ [];
  remediation_immediate =
      codes
        "If a specific long-running query on the reader is blocking redo application, consider cancelling it after confirming impact (see incident-response/runaway-query for safety guidance, applied to the reader context)."
      ∷ [];
  remediation_short_term =
      codes
        "Reduce WAL-heavy write patterns identified via performance/high-iops's pgss_wal_heavy script."
      ∷ codes
          "Consider a larger reader instance class if consistently under-provisioned relative to write volume."
      ∷ [];
  remediation_long_term =
      codes
        "For features requiring strict read-after-write consistency, route those specific reads to the writer endpoint rather than relying on eventual reader consistency, or implement application-level read-your-writes handling (e.g. a short-lived cache of just-written data)."
      ∷ [];
  production_safety = codes "All investigation scripts are read-only." ∷ [];
  escalation_criteria =
      codes
        "Reader lag remains elevated with no identifiable query-level or WAL-volume cause -- open an AWS Support case, since this may indicate an Aurora storage-layer issue."
      ∷ [];
  related_issues =
      codes "../reader-lag-investigation/README.md"
      ∷ codes "../reader-performance/README.md"
      ∷ codes "../../performance/high-iops/README.md"
      ∷ [];
  scripts =
      sql_script (codes "01") (codes "01_aurora_native_replica_lag")
        (codes
          "Checks Aurora's native cluster-wide replica lag via the Aurora-specific function -- the correct source for reader lag on Aurora.")
        aurora_replica_status
        (codes
          "This reflects genuine Aurora storage-layer replication lag, not standard PostgreSQL streaming replication -- use this, not pg_stat_replication, to assess Aurora reader staleness.")
        (record sql_script_defaults {
          related_scripts = codes "02_standard_streaming_replication.sql";
        })
      ∷ sql_script (codes "02") (codes "02_standard_streaming_replication")
          (codes
            "Checks standard PostgreSQL streaming replication status from the writer, for any external physical/logical replica or CDC consumer (NOT Aurora readers).")
          standard_streaming_replication_status
          (codes
            "An empty result here is completely normal on Aurora even with healthy readers -- it only shows genuine external streaming consumers. Do not interpret an empty result as 'no replicas exist'.")
          (record sql_script_defaults {
            execution_location = writer_only;
            related_scripts = codes "03_writer_wal_generation.sql";
          })
      ∷ sql_script (codes "03") (codes "03_writer_wal_generation")
          (codes
            "Checks current WAL generation rate on the writer, the primary driver of reader apply lag under high write volume.")
          wal_activity
          (codes
            "On Aurora PostgreSQL (verified through 17.7) this returns a single NOT AVAILABLE / guidance row instead of querying pg_stat_wal, since Aurora does not implement the pg_stat_get_wal() function backing that view -- use the CloudWatch or Performance Insights metrics named in the guidance row instead. On standard/self-managed PostgreSQL, compare wal_bytes across two snapshots to compute a rate; a high sustained WAL generation rate is the most common root cause of elevated reader apply lag.")
          (record sql_script_defaults {
            execution_location = writer_only;
            related_scripts = codes "04_reader_side_long_queries.sql";
          })
      ∷ sql_script (codes "04") (codes "04_reader_side_long_queries")
          (codes
            "Checks for long-running queries on the specific lagging reader instance that could be delaying redo application.")
          active_long_running_queries
          (codes
            "Run this connected directly to the lagging reader instance (not the writer or cluster endpoint) -- a long analytical query on the reader can itself delay how quickly it applies incoming redo.")
          (record sql_script_defaults {
            execution_location =
                codes
                  "Reader instance specifically (connect directly to the lagging reader, not the cluster/reader load-balanced endpoint)";
            related_scripts = codes "../reader-lag-investigation/README.md";
          })
      ∷ [];
  aurora_notes =
      codes
        "Aurora readers share the same underlying distributed storage volume as the writer and receive redo log records through Aurora's internal storage-layer replication mechanism -- they do NOT stream WAL from the writer via standard PostgreSQL physical replication, so pg_stat_replication on the writer will show NO rows for Aurora reader instances even when readers exist and are healthy."
      ∷ codes
          "Use `aurora_replica_status()` (callable from any instance in the cluster) or the CloudWatch `AuroraReplicaLag`/`AuroraReplicaLagMaximum`/`AuroraReplicaLagMinimum` metrics as the authoritative source for Aurora reader lag."
      ∷ [];
  execution_guidance = codes "";
  expected_output_guidance = codes "";
  severe_incident_guidance = codes "";
}
