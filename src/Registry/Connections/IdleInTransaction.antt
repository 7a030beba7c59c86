-- ===== src/Registry/Connections/IdleInTransaction.antt =====
-- tools/repo_builder/wf_connections.py: the workflow `idle-in-transaction`.
use postgres_dbre.Prelude.{[], ◌∷◌}
use postgres_dbre.Text.{codes}
use postgres_dbre.Model.{Workflow}
use postgres_dbre.Helpers.{sql_script, sql_script_defaults}
use postgres_dbre.SqlBlocks.Sessions.{idle_in_transaction_sessions}
use postgres_dbre.Registry.Connections.Category.{category_slug, category_title}

unfoldable pub idle_in_transaction_workflow : Workflow
idle_in_transaction_workflow = record {
  category_slug = category_slug;
  category_title = category_title;
  slug = codes "idle-in-transaction";
  title = codes "Idle-in-Transaction (Connections View)";
  summary =
      codes
        "Connection-management-focused entry point for idle-in-transaction sessions; see concurrency-and-locking/idle-in-transaction for the full lock/concurrency-impact investigation of the same underlying sessions.";
  symptoms = codes "See concurrency-and-locking/idle-in-transaction." ∷ [];
  business_impact =
      codes
        "Beyond the lock/vacuum impact covered in concurrency-and-locking, idle-in-transaction sessions also consume a connection slot exactly as if they were doing useful work."
      ∷ [];
  root_causes = codes "See concurrency-and-locking/idle-in-transaction." ∷ [];
  investigation_strategy =
      codes "List idle-in-transaction sessions and their connection-slot impact."
      ∷ codes "Cross-reference with concurrency-and-locking/idle-in-transaction for lock impact."
      ∷ [];
  prerequisites = codes "pg_monitor role membership." ∷ [];
  interpretation_guide =
      codes
        "Treat any idle-in-transaction session as both a connection-budget concern and a lock/vacuum concern simultaneously."
      ∷ [];
  remediation_immediate = codes "See concurrency-and-locking/idle-in-transaction." ∷ [];
  remediation_short_term =
      codes "Set idle_in_transaction_session_timeout at the role/database level." ∷ [];
  remediation_long_term = codes "See concurrency-and-locking/idle-in-transaction." ∷ [];
  production_safety = codes "Read-only." ∷ [];
  escalation_criteria = codes "See concurrency-and-locking/idle-in-transaction." ∷ [];
  related_issues =
      codes "../../concurrency-and-locking/idle-in-transaction/README.md"
      ∷ codes "../connection-exhaustion/README.md"
      ∷ [];
  scripts =
      sql_script (codes "01") (codes "01_idle_in_transaction_sessions")
        (codes
          "Lists idle-in-transaction sessions, viewed here for their connection-slot consumption impact.")
        idle_in_transaction_sessions
        (codes
          "Every result here occupies a connection slot indefinitely in addition to holding locks/snapshots -- see concurrency-and-locking/idle-in-transaction for the full remediation guidance.")
        (record sql_script_defaults {
          related_scripts =
              codes
                "../../concurrency-and-locking/idle-in-transaction/scripts/01_idle_in_transaction_sessions.sql";
        })
      ∷ [];
  aurora_notes = [];
  execution_guidance = codes "";
  expected_output_guidance = codes "";
  severe_incident_guidance = codes "";
}
