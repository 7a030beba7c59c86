-- ===== src/Registry/Replication/ReplicationHealth.antt =====
-- tools/repo_builder/wf_replication.py: the workflow `replication-health`.
use postgres_dbre.Prelude.{[], ◌∷◌}
use postgres_dbre.Text.{codes}
use postgres_dbre.Model.{Workflow}
use postgres_dbre.Helpers.{sql_script, sql_script_defaults}
use postgres_dbre.SqlBlocks.Replication.{aurora_replica_status, replication_slots_and_wal_retention}
use postgres_dbre.Registry.Replication.Category.{category_slug, category_title}

unfoldable pub replication_health_workflow : Workflow
replication_health_workflow = record {
  category_slug = category_slug;
  category_title = category_title;
  slug = codes "replication-health";
  title = codes "Overall Replication Health Check";
  summary =
      codes
        "A routine, holistic health check spanning Aurora reader lag, any external logical replication slots/subscribers, and replication-related configuration -- intended for regular health monitoring rather than active-incident response.";
  symptoms =
      codes
        "No active symptom -- routine health check, suitable for inclusion in database-health/daily-health-check."
      ∷ [];
  business_impact =
      codes
        "Regular replication health checks catch a slowly degrading reader or a silently stalled logical replication slot before it becomes a customer-visible incident."
      ∷ [];
  root_causes = codes "N/A -- monitoring workflow." ∷ [];
  investigation_strategy =
      codes "Check Aurora reader lag across the fleet."
      ∷ codes
          "Check all replication slots (physical and logical) for active status and retained WAL."
      ∷ codes "Check standard streaming replication for any external consumers."
      ∷ [];
  prerequisites = codes "pg_monitor role membership." ∷ [];
  interpretation_guide =
      codes
        "A healthy state is: all readers reporting low, stable lag via aurora_replica_status(); every replication slot either active=true or explicitly and knowingly retained for a documented reason; no unexpectedly large retained WAL."
      ∷ [];
  remediation_immediate =
      codes
        "N/A -- pivot to the specific workflow (replication-lag, xid-wraparound-risk if a slot is pinning vacuum) matching any finding."
      ∷ [];
  remediation_short_term = codes "N/A." ∷ [];
  remediation_long_term =
      codes "Include this check in the standing automation/health-checks schedule." ∷ [];
  production_safety = codes "Read-only." ∷ [];
  escalation_criteria =
      codes
        "An inactive replication slot with significant retained WAL and no known owner -- escalate before dropping it (see transactions-and-xid/xid-wraparound-risk's slot-handling guidance)."
      ∷ [];
  related_issues =
      codes "../replication-lag/README.md"
      ∷ codes "../../database-health/daily-health-check/README.md"
      ∷ codes "../../transactions-and-xid/xid-wraparound-risk/README.md"
      ∷ [];
  scripts =
      sql_script (codes "01") (codes "01_aurora_reader_lag_fleet_check")
        (codes "Fleet-wide Aurora reader lag check.") aurora_replica_status
        (codes
          "All readers should show low, stable lag; investigate any outlier per replication-lag.")
        (record sql_script_defaults { related_scripts = codes "02_replication_slots_health.sql" })
      ∷ sql_script (codes "02") (codes "02_replication_slots_health")
          (codes
            "Checks all replication slots for active status and retained WAL as part of the routine health check.")
          replication_slots_and_wal_retention
          (codes
            "Any slot with active = false and a large/growing retained WAL size needs immediate follow-up -- it is both a storage-growth risk and a vacuum-horizon risk.")
          (record sql_script_defaults {
            related_scripts =
                codes
                  "../../transactions-and-xid/xid-wraparound-risk/scripts/08_replication_slots_xmin_pinning.sql";
          })
      ∷ [];
  aurora_notes = [];
  execution_guidance = codes "";
  expected_output_guidance = codes "";
  severe_incident_guidance = codes "";
}
