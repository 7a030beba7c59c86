-- ===== src/Registry/Connections/ApplicationConnectionAnalysis.antt =====
-- tools/repo_builder/wf_connections.py: the workflow `application-connection-analysis`.
use postgres_dbre.Prelude.{[], ◌∷◌}
use postgres_dbre.Text.{codes}
use postgres_dbre.Model.{Workflow}
use postgres_dbre.Helpers.{sql_script, sql_script_defaults}
use postgres_dbre.Render.{lines}
use postgres_dbre.Registry.Connections.Category.{category_slug, category_title}

unfoldable pub application_connection_analysis_workflow : Workflow
application_connection_analysis_workflow = record {
  category_slug = category_slug;
  category_title = category_title;
  slug = codes "application-connection-analysis";
  title = codes "Application-Level Connection Analysis";
  summary =
      codes
        "Deep-dive into a specific application/service's connection behavior -- pool size, connection lifetime, and query pattern -- when that service is suspected of contributing disproportionately to connection-related issues.";
  symptoms =
      codes
        "A specific service is repeatedly implicated in connection-exhaustion/connection-spikes findings."
      ∷ [];
  business_impact =
      codes
        "Understanding one service's specific connection behavior in detail is necessary to fix a recurring, service-specific connection problem rather than repeatedly applying database-wide mitigations."
      ∷ [];
  root_causes =
      codes
        "See connection-exhaustion and idle-connections for the general root-cause list; this workflow narrows the investigation to one specific, already-implicated service."
      ∷ [];
  investigation_strategy =
      codes "Filter all connection/activity views to the specific application_name."
      ∷ codes
          "Characterize its connection count, state distribution, and typical query pattern over time."
      ∷ codes "Compare against its documented/expected pool configuration."
      ∷ [];
  prerequisites =
      codes
        "The specific application_name/usename already identified as the focus, typically from connection-exhaustion or connection-spikes."
      ∷ [];
  interpretation_guide =
      codes
        "Compare the service's actual observed behavior against its own configuration (pool min/max, statement timeout) -- a mismatch (e.g. actual connections far exceeding configured pool max) suggests either multiple unpooled instances or a configuration drift, not a single simple leak."
      ∷ [];
  remediation_immediate =
      codes "Coordinate directly with the owning team using the specific evidence gathered here."
      ∷ [];
  remediation_short_term = codes "Fix the specific configuration/code issue identified." ∷ [];
  remediation_long_term =
      codes
        "Add this service's connection budget to max-connections-planning's living documentation."
      ∷ [];
  production_safety = codes "Read-only." ∷ [];
  escalation_criteria =
      codes
        "The owning team cannot resolve the issue without a broader architecture change (e.g. adopting pooling for the first time) -- escalate to database engineering and that team's leadership jointly."
      ∷ [];
  related_issues =
      codes "../connection-exhaustion/README.md"
      ∷ codes "../max-connections-planning/README.md"
      ∷ [];
  scripts =
      sql_script (codes "01") (codes "01_service_connection_detail")
        (codes
          "Detailed connection/state/query breakdown filtered to a specific application, for deep-dive analysis.")
        (lines (
          codes "-- Detailed per-session view for a specific application, to characterize its"
          ∷ codes "-- exact connection and query behavior for a targeted investigation. This"
          ∷ codes "-- is a WHERE-clause filter (not a relation reference), so an unmatched"
          ∷ codes "-- default application name simply returns zero rows -- edit the \\set line"
          ∷ codes "-- below to the real application_name under investigation."
          ∷ codes "\\set target_application_name 'order-service'"
          ∷ codes "SELECT"
          ∷ codes "    pid,"
          ∷ codes "    usename,"
          ∷ codes "    client_addr,"
          ∷ codes "    state,"
          ∷ codes "    backend_start,"
          ∷ codes
              "    now() - backend_start                                        AS connection_age,"
          ∷ codes
              "    now() - state_change                                          AS time_in_current_state,"
          ∷ codes
              "    left(query, 160)                                              AS current_or_last_query"
          ∷ codes "FROM pg_stat_activity"
          ∷ codes "WHERE application_name = :'target_application_name'"
          ∷ codes "ORDER BY connection_age DESC;"
          ∷ []))
        (codes
          "A wide spread of connection_age values with many very-old connections suggests long-lived pooled connections (expected for a healthy pool); many very-young, rapidly cycling connections suggest the service is not pooling at all and opening a new connection per request.")
        (record sql_script_defaults { related_scripts = codes "../connection-pooling/README.md" })
      ∷ [];
  aurora_notes = [];
  execution_guidance = codes "";
  expected_output_guidance = codes "";
  severe_incident_guidance = codes "";
}
