-- ===== src/Registry/Connections/MaxConnectionsPlanning.antt =====
-- tools/repo_builder/wf_connections.py: the workflow `max-connections-planning`.
use postgres_dbre.Prelude.{[], ◌∷◌}
use postgres_dbre.Text.{codes}
use postgres_dbre.Model.{Workflow}
use postgres_dbre.Helpers.{sql_script, sql_script_defaults}
use postgres_dbre.SqlBlocks.Sessions.{connections_by_application_and_user}
use postgres_dbre.Registry.Connections.Category.{category_slug, category_title}

unfoldable pub max_connections_planning_workflow : Workflow
max_connections_planning_workflow = record {
  category_slug = category_slug;
  category_title = category_title;
  slug = codes "max-connections-planning";
  title = codes "max_connections Capacity Planning";
  summary =
      codes
        "Proactive capacity planning workflow for establishing an appropriate max_connections budget and per-service connection allocation, rather than reacting to exhaustion after the fact.";
  symptoms =
      codes
        "No active symptom -- proactive planning workflow, typically run during capacity reviews or before onboarding a new service."
      ∷ [];
  business_impact =
      codes
        "A documented, deliberately planned connection budget prevents the class of incident covered by connection-exhaustion from recurring as the platform adds more services."
      ∷ [];
  root_causes = codes "N/A -- planning workflow." ∷ [];
  investigation_strategy =
      codes "Establish current total connection budget (max_connections minus reserved)."
      ∷ codes "Inventory current per-service allocation."
      ∷ codes
          "Compare against each service's actual peak observed usage to find both over- and under-provisioned services."
      ∷ [];
  prerequisites =
      codes "pg_monitor role membership; inventory of all services connecting to the database."
      ∷ [];
  interpretation_guide =
      codes
        "The sum of all services' pool `max` settings should never exceed a safe fraction (commonly 70-80%) of max_connections, leaving explicit headroom for migrations, monitoring tools, and burst capacity."
      ∷ [];
  remediation_immediate = codes "N/A." ∷ [];
  remediation_short_term =
      codes
        "Right-size any service found significantly over- or under-provisioned relative to its actual observed peak usage."
      ∷ [];
  remediation_long_term =
      codes
        "Maintain a living connection-budget document reviewed whenever a new service is onboarded or Aurora instance class changes (which changes the effective max_connections ceiling)."
      ∷ [];
  production_safety = codes "Read-only." ∷ [];
  escalation_criteria =
      codes
        "Planned service growth would exceed available connection budget even after pooling -- escalate for an instance-class or architecture decision (e.g. mandatory pooling for all new services) ahead of actually hitting exhaustion."
      ∷ [];
  related_issues =
      codes "../connection-exhaustion/README.md" ∷ codes "../connection-pooling/README.md" ∷ [];
  scripts =
      sql_script (codes "01") (codes "01_current_budget_and_allocation")
        (codes
          "Establishes current max_connections budget and per-application actual usage as the planning baseline.")
        connections_by_application_and_user
        (codes
          "Sum peak session_count per application_name across your monitoring window and compare against max_connections headroom (see 02_connection_headroom.sql in connection-exhaustion) to build the capacity plan.")
        (record sql_script_defaults {
          related_scripts = codes "../connection-exhaustion/scripts/01_connection_headroom.sql";
        })
      ∷ [];
  aurora_notes = [];
  execution_guidance = codes "";
  expected_output_guidance = codes "";
  severe_incident_guidance = codes "";
}
