-- ===== src/Registry/Connections/ConnectionPooling.antt =====
-- tools/repo_builder/wf_connections.py: the workflow `connection-pooling`.
use postgres_dbre.Prelude.{[], ◌∷◌}
use postgres_dbre.Text.{codes}
use postgres_dbre.Model.{Workflow}
use postgres_dbre.Helpers.{sql_script, sql_script_defaults}
use postgres_dbre.SqlBlocks.Sessions.{connections_by_application_and_user}
use postgres_dbre.Registry.Connections.Category.{category_slug, category_title}

unfoldable pub connection_pooling_workflow : Workflow
connection_pooling_workflow = record {
  category_slug = category_slug;
  category_title = category_title;
  slug = codes "connection-pooling";
  title = codes "Connection Pooling (PgBouncer) Considerations";
  summary =
      codes
        "Guidance and database-side diagnostics for environments using PgBouncer (or an equivalent external pooler) in front of Aurora PostgreSQL, clearly separating what is visible/actionable from the PostgreSQL side vs. what must be investigated on the pooler itself.";
  symptoms =
      codes
        "Application-visible connection errors that do not correlate with the database's own max_connections utilization -- often a sign the bottleneck is the pooler layer, not PostgreSQL."
      ∷ [];
  business_impact =
      codes
        "A correctly configured pooler is essential infrastructure for a high-connection-concurrency exchange workload; pooler misconfiguration is a very common source of connection-related incidents that are misdiagnosed as database problems."
      ∷ [];
  root_causes =
      codes "Pooler pool_size too small for actual concurrency needs."
      ∷ codes
          "Pooler in session mode instead of transaction mode, multiplying effective connection consumption."
      ∷ codes
          "Pooler itself under CPU/memory pressure (a separate host/process from the database entirely)."
      ∷ [];
  investigation_strategy =
      codes
        "From the database side: confirm how many connections the pooler itself is actually using against max_connections (should be a small, stable number in transaction-pooling mode)."
      ∷ codes
          "From the pooler side (not a PostgreSQL SQL concern): check PgBouncer's own SHOW POOLS / SHOW STATS admin console for pooler-side queue depth and wait times."
      ∷ [];
  prerequisites =
      codes
        "Administrative access to the PgBouncer instance's admin console for pooler-side diagnostics (outside the scope of PostgreSQL SQL entirely)."
      ∷ [];
  interpretation_guide =
      codes
        "If the database shows ample max_connections headroom while the application experiences connection errors/timeouts, the problem is almost certainly on the pooler side (or between the application and the pooler), not in PostgreSQL -- do not keep searching PostgreSQL-side catalogs for a pooler-side problem."
      ∷ [];
  remediation_immediate =
      codes
        "Increase PgBouncer pool_size (pooler-side config, not a PostgreSQL change) if pooler-side queuing is confirmed."
      ∷ [];
  remediation_short_term =
      codes
        "Move from session to transaction pooling mode if application compatibility allows (no session-level SET/temp tables/prepared statements relied upon across statements)."
      ∷ [];
  remediation_long_term =
      codes
        "Document the intended pooler architecture (per-service PgBouncer vs. shared, pool_size per service) as part of max-connections-planning."
      ∷ [];
  production_safety =
      codes
        "Database-side diagnostics here are read-only; pooler-side changes are outside PostgreSQL's safety model entirely and follow the pooler's own operational practices."
      ∷ [];
  escalation_criteria =
      codes
        "Pooler-side issues are outside DBA/PostgreSQL scope in many organizations -- escalate to the team owning the pooler infrastructure if the database side is confirmed healthy."
      ∷ [];
  related_issues =
      codes "../connection-exhaustion/README.md"
      ∷ codes "../max-connections-planning/README.md"
      ∷ [];
  scripts =
      sql_script (codes "01") (codes "01_pooler_connection_footprint")
        (codes
          "Checks how many database-side connections the pooler's application_name/user is actually consuming, to distinguish a database-side vs. pooler-side bottleneck.")
        connections_by_application_and_user
        (codes
          "A small, stable connection count here despite application-visible connection errors strongly suggests the bottleneck is on the pooler side (or between application and pooler) -- pivot to the pooler's own admin console (SHOW POOLS) rather than continuing PostgreSQL-side investigation.")
        (record sql_script_defaults {
          related_scripts = codes "../connection-exhaustion/README.md";
        })
      ∷ [];
  aurora_notes =
      codes
        "Aurora does not provide a managed PgBouncer -- pooling is an application/infrastructure-team responsibility layered in front of the Aurora endpoint(s), typically run on separate EC2/ECS/Fargate infrastructure or as a sidecar."
      ∷ [];
  execution_guidance = codes "";
  expected_output_guidance = codes "";
  severe_incident_guidance = codes "";
}
