-- ===== src/Registry/Connections/IdleConnections.antt =====
-- tools/repo_builder/wf_connections.py: the workflow `idle-connections`.
use postgres_dbre.Prelude.{[], ◌∷◌}
use postgres_dbre.Text.{codes}
use postgres_dbre.Model.{Workflow}
use postgres_dbre.Helpers.{sql_script, sql_script_defaults}
use postgres_dbre.SqlBlocks.Sessions.{connections_by_application_and_user}
use postgres_dbre.Registry.Connections.Category.{category_slug, category_title}

unfoldable pub idle_connections_workflow : Workflow
idle_connections_workflow = record {
  category_slug = category_slug;
  category_title = category_title;
  slug = codes "idle-connections";
  title = codes "Idle Connections";
  summary =
      codes
        "A large number of connections sitting fully idle (not idle-in-transaction, just idle) -- consuming a connection slot and a small amount of backend memory without doing any work, potentially crowding out headroom for active work.";
  symptoms =
      codes "High idle_count relative to active_count in connection breakdowns."
      ∷ codes "Connection count near max_connections despite low actual query throughput."
      ∷ [];
  business_impact =
      codes
        "Idle connections are lower-risk than idle-in-transaction (they hold no locks/snapshots) but still consume a connection slot -- at scale, they can still contribute to exhaustion and represent inefficient pool sizing."
      ∷ [];
  root_causes =
      codes "A connection pool sized much larger than actual concurrent demand requires."
      ∷ codes
          "A pooler in session mode holding connections open between client requests instead of returning them to a shared pool."
      ∷ codes
          "Application instances that open a connection per long-lived worker/thread regardless of actual utilization."
      ∷ [];
  investigation_strategy =
      codes "Break down idle connections by application_name."
      ∷ codes
          "Compare pool size configuration against observed active concurrency to right-size it."
      ∷ [];
  prerequisites =
      codes
        "pg_monitor role membership; visibility into application/pooler pool-size configuration."
      ∷ [];
  interpretation_guide =
      codes
        "A small, stable number of idle connections per application is normal and healthy (pool warm-up); a very large number relative to peak active concurrency suggests over-provisioned pool sizing."
      ∷ [];
  remediation_immediate =
      codes "None typically required unless contributing to active exhaustion." ∷ [];
  remediation_short_term =
      codes
        "Right-size pool `min`/`max` settings based on observed peak active concurrency, not a guess."
      ∷ codes
          "Switch a session-mode pooler to transaction-mode pooling if the application does not require session-level state."
      ∷ [];
  remediation_long_term =
      codes "Document connection budgets per service (see max-connections-planning)." ∷ [];
  production_safety = codes "Read-only." ∷ [];
  escalation_criteria = codes "N/A -- typically a low-urgency tuning finding." ∷ [];
  related_issues =
      codes "../connection-pooling/README.md" ∷ codes "../max-connections-planning/README.md" ∷ [];
  scripts =
      sql_script (codes "01") (codes "01_idle_connections_by_application")
        (codes
          "Breaks down idle (not idle-in-transaction) connections by application to assess pool sizing.")
        connections_by_application_and_user
        (codes
          "A consistently high idle_count for a specific application_name, far above its active_count, is a right-sizing opportunity for that service's pool.")
        (record sql_script_defaults { related_scripts = codes "../connection-pooling/README.md" })
      ∷ [];
  aurora_notes = [];
  execution_guidance = codes "";
  expected_output_guidance = codes "";
  severe_incident_guidance = codes "";
}
