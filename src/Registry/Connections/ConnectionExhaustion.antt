-- ===== src/Registry/Connections/ConnectionExhaustion.antt =====
-- tools/repo_builder/wf_connections.py: the workflow `connection-exhaustion`.
use postgres_dbre.Prelude.{[], ◌∷◌}
use postgres_dbre.Text.{codes}
use postgres_dbre.Model.{Workflow}
use postgres_dbre.Helpers.{sql_script, sql_script_defaults}
use postgres_dbre.SqlBlocks.Sessions.{connections_by_application_and_user, max_connections_headroom}
use postgres_dbre.Registry.Connections.Category.{category_slug, category_title}

unfoldable pub connection_exhaustion_workflow : Workflow
connection_exhaustion_workflow = record {
  category_slug = category_slug;
  category_title = category_title;
  slug = codes "connection-exhaustion";
  title = codes "Connection Exhaustion";
  summary =
      codes
        "The database is at or near max_connections, causing new connection attempts to be rejected outright -- a full application-facing outage for any service unable to obtain a connection.";
  symptoms =
      codes
        "Application errors: 'FATAL: too many connections for role/database' or 'sorry, too many clients already'."
      ∷ codes "Connection count in pg_stat_activity at or very near max_connections."
      ∷ [];
  business_impact =
      codes
        "Connection exhaustion is a hard outage for any new request needing a database connection -- existing connections continue to work, but no new work can start, which for a trading platform means new orders/logins fail outright."
      ∷ [];
  root_causes =
      codes
        "A connection leak in an application/service (connections opened but never returned to the pool)."
      ∷ codes
          "A pool misconfiguration deploying far more application instances/pool-size than the database's max_connections budget."
      ∷ codes
          "A sudden burst of legitimate demand (traffic spike, market volatility) exceeding provisioned capacity."
      ∷ codes
          "No connection pooler in front of the database at all, with each application instance connecting directly."
      ∷ [];
  investigation_strategy =
      codes "Confirm current utilization against max_connections."
      ∷ codes "Break down connections by application_name/usename to find the specific source."
      ∷ codes
          "Check for a large number of idle connections (potential leak/pool misconfiguration) vs. active connections (genuine demand)."
      ∷ [];
  prerequisites = codes "pg_monitor role membership." ∷ [];
  interpretation_guide =
      codes
        "A large idle_count relative to active_count for a specific application_name points to a leak or an oversized/misconfigured pool holding connections unnecessarily -- distinct from genuine demand, which shows up as a high active_count."
      ∷ [];
  remediation_immediate =
      codes
        "If a specific application/service is clearly leaking connections, restart it to release them as an immediate mitigation while the underlying bug is fixed."
      ∷ codes
          "If genuinely legitimate demand has exceeded capacity, and Aurora max_connections headroom exists at a larger instance class, consider an emergency vertical scale."
      ∷ [];
  remediation_short_term =
      codes
        "Introduce or right-size a connection pooler (PgBouncer) in front of the database to multiplex many application connections onto fewer database connections."
      ∷ codes
          "Fix the specific application-side leak (missing connection.close()/context-manager usage)."
      ∷ [];
  remediation_long_term =
      codes
        "Establish a documented per-service connection budget (see max-connections-planning) so total planned connections never approach max_connections under normal peak conditions."
      ∷ [];
  production_safety = codes "All investigation scripts are read-only." ∷ [];
  escalation_criteria =
      codes
        "The root cause is an application bug causing a leak -- escalate to the owning team immediately, since restarting the service is only a temporary mitigation."
      ∷ [];
  related_issues =
      codes "../connection-pooling/README.md"
      ∷ codes "../max-connections-planning/README.md"
      ∷ codes "../../concurrency-and-locking/connection-contention/README.md"
      ∷ [];
  scripts =
      sql_script (codes "01") (codes "01_connection_headroom")
        (codes "Checks current connection utilization against max_connections.")
        max_connections_headroom
        (codes
          "pct_utilized near 100% confirms exhaustion is imminent/active; note superuser_reserved_connections, which further reduces the pool available to ordinary application roles.")
        (record sql_script_defaults { related_scripts = codes "02_connections_by_application.sql" })
      ∷ sql_script (codes "02") (codes "02_connections_by_application")
          (codes
            "Breaks connections down by application_name/usename/state to identify the source.")
          connections_by_application_and_user
          (codes
            "A single application_name with a disproportionate idle_count suggests a leak or oversized pool; a broad, even increase across all applications suggests genuine demand growth.")
          (record sql_script_defaults { related_scripts = codes "../connection-pooling/README.md" })
      ∷ [];
  aurora_notes =
      codes
        "On Aurora, max_connections is typically derived automatically from the instance class's memory via a parameter-group formula rather than freely configurable -- increasing it substantially usually means moving to a larger instance class, not just editing a parameter."
      ∷ [];
  execution_guidance = codes "";
  expected_output_guidance = codes "";
  severe_incident_guidance = codes "";
}
