-- ===== src/Registry/Connections/ConnectionSpikes.antt =====
-- tools/repo_builder/wf_connections.py: the workflow `connection-spikes`.
use postgres_dbre.Prelude.{[], ◌∷◌}
use postgres_dbre.Text.{codes}
use postgres_dbre.Model.{Workflow}
use postgres_dbre.Helpers.{sql_script, sql_script_defaults}
use postgres_dbre.SqlBlocks.Sessions.{connections_by_application_and_user, connections_by_state}
use postgres_dbre.Registry.Connections.Category.{category_slug, category_title}

unfoldable pub connection_spikes_workflow : Workflow
connection_spikes_workflow = record {
  category_slug = category_slug;
  category_title = category_title;
  slug = codes "connection-spikes";
  title = codes "Connection Spikes";
  summary =
      codes
        "A sudden, sharp increase in connection count over a short period, whether or not it reaches full exhaustion -- often a leading indicator of exhaustion or of a reconnect storm.";
  symptoms =
      codes "Connection count chart showing a sharp step-change rather than gradual growth."
      ∷ codes
          "Correlates with a deployment, a failover, or an upstream outage causing widespread client reconnects."
      ∷ [];
  business_impact =
      codes
        "Connection spikes stress both the database (context switching, memory) and any pooler in front of it, and frequently precede a connection-exhaustion incident if not addressed."
      ∷ [];
  root_causes =
      codes
        "A deployment restarting many application instances simultaneously, each re-establishing its full connection pool at once."
      ∷ codes "A failover triggering a synchronized reconnect storm across all connected clients."
      ∷ codes
          "An upstream dependency outage causing widespread client-side retries that each open a new connection instead of reusing an existing one."
      ∷ [];
  investigation_strategy =
      codes "Confirm the spike's timing against known events (deploys, failovers)."
      ∷ codes "Break down the spike by application_name to identify the source."
      ∷ codes "Check whether reconnecting clients are using appropriate backoff/jitter."
      ∷ [];
  prerequisites =
      codes "pg_monitor role membership; deployment/event timeline for correlation." ∷ [];
  interpretation_guide =
      codes
        "A spike that resolves on its own within seconds to a couple of minutes and correlates with a known event (deploy/failover) is expected and low-risk; a spike that persists or continues climbing needs active investigation as a potential leak or retry storm."
      ∷ [];
  remediation_immediate =
      codes
        "If the spike is actively risking exhaustion, apply connection-exhaustion's immediate remediation."
      ∷ [];
  remediation_short_term =
      codes
        "Stagger application instance restarts/deploys (rolling restarts) instead of all-at-once to smooth reconnection load."
      ∷ [];
  remediation_long_term =
      codes
        "Ensure all client-side reconnect logic uses randomized backoff/jitter to avoid synchronized reconnect storms."
      ∷ [];
  production_safety = codes "Read-only." ∷ [];
  escalation_criteria =
      codes
        "Spike does not correlate with any known event and continues growing -- escalate as a potential leak/incident."
      ∷ [];
  related_issues =
      codes "../connection-exhaustion/README.md"
      ∷ codes "../../performance/performance-after-failover/README.md"
      ∷ [];
  scripts =
      sql_script (codes "01") (codes "01_connection_state_snapshot")
        (codes
          "Snapshots current connection counts by state as the starting point for spike investigation.")
        connections_by_state
        (codes
          "Re-run this every few seconds during an active spike to track its trajectory; compare against the pre-spike baseline.")
        (record sql_script_defaults { related_scripts = codes "02_connections_by_application.sql" })
      ∷ sql_script (codes "02") (codes "02_connections_by_application")
          (codes "Attributes the spike to a specific application/service.")
          connections_by_application_and_user
          (codes
            "The application_name showing the largest delta from its normal baseline is the source of the spike.")
          (record sql_script_defaults {
            related_scripts = codes "../connection-exhaustion/README.md";
          })
      ∷ [];
  aurora_notes = [];
  execution_guidance = codes "";
  expected_output_guidance = codes "";
  severe_incident_guidance = codes "";
}
