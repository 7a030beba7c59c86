-- ===== src/Registry/Replication/FailoverInvestigation.antt =====
-- tools/repo_builder/wf_replication.py: the workflow `failover-investigation`.
use postgres_dbre.Prelude.{[], ◌∷◌, ◌++◌}
use postgres_dbre.Text.{codes}
use postgres_dbre.Model.{Workflow}
use postgres_dbre.Helpers.{sql_script, sql_script_defaults}
use postgres_dbre.Render.{lines}
use postgres_dbre.SqlBlocks.Replication.{cluster_recovery_role}
use postgres_dbre.Registry.Replication.Category.{category_slug, category_title}

unfoldable pub failover_investigation_workflow : Workflow
failover_investigation_workflow = record {
  category_slug = category_slug;
  category_title = category_title;
  slug = codes "failover-investigation";
  title = codes "Failover Investigation";
  summary =
      codes
        "Post-hoc investigation of an Aurora failover event -- confirming it occurred, understanding its cause and timing, and assessing its impact, distinct from performance/performance-after-failover which focuses specifically on the post-failover cache-warmup performance dip.";
  symptoms =
      codes "Application experienced a brief connectivity disruption."
      ∷ codes "AWS RDS/Aurora Events show a failover event."
      ∷ codes "The writer instance identity has changed."
      ∷ [];
  business_impact =
      codes
        "Understanding why a failover occurred (planned maintenance vs. an unplanned instance failure) determines whether follow-up action is needed and informs confidence in the platform's HA posture."
      ∷ [];
  root_causes =
      codes
        "A planned failover (e.g. an AWS-initiated instance patch/maintenance, or a manually-triggered failover for testing/maintenance)."
      ∷ codes
          "An unplanned failover due to a writer instance failure/health-check failure detected by Aurora."
      ∷ codes
          "A manually-triggered application-side failover test (see disaster-recovery/cluster-failover-drill)."
      ∷ [];
  investigation_strategy =
      codes "Confirm current writer/reader roles and recent instance start times."
      ∷ codes
          "Check AWS RDS Events (via AWS Console/CLI, not SQL) for the specific failover cause and timestamp."
      ∷ codes "Assess connection/application impact during the failover window."
      ∷ [];
  prerequisites =
      codes
        "AWS Console/CLI access to RDS/Aurora Events -- the failover cause itself is not visible via SQL."
      ∷ [];
  interpretation_guide =
      codes
        "A recent pg_postmaster_start_time on the current writer combined with a corresponding AWS RDS Event is the clearest confirmation of a recent failover and its type (planned vs. unplanned)."
      ∷ [];
  remediation_immediate =
      codes
        "If ongoing post-failover performance impact is present, see performance/performance-after-failover."
      ∷ [];
  remediation_short_term =
      codes
        "If the failover was unplanned (instance failure), review CloudWatch/RDS Events for the underlying health-check failure reason and consider an AWS Support case if the cause is unclear."
      ∷ [];
  remediation_long_term =
      codes
        "Use findings to inform disaster-recovery/cluster-failover-drill planning and application-side resiliency (connection retry/backoff) improvements."
      ∷ [];
  production_safety =
      codes
        "SQL-side investigation is read-only; failover itself is an AWS-managed operation, not something triggered via SQL."
      ∷ [];
  escalation_criteria =
      codes
        "An unplanned failover's root cause is not clear from RDS Events -- open an AWS Support case."
      ∷ [];
  related_issues =
      codes "../failover-readiness/README.md"
      ∷ codes "../../performance/performance-after-failover/README.md"
      ∷ codes "../../disaster-recovery/cluster-failover-drill/README.md"
      ∷ [];
  scripts =
      sql_script (codes "01") (codes "01_confirm_role_and_recent_restart")
        (codes
          "Confirms current writer/reader role and how recently this instance started, as SQL-side evidence of a recent failover.")
        (cluster_recovery_role
          ++ lines (
              []
              ∷ []
              ∷ codes "SELECT pg_postmaster_start_time() AS instance_start_time,"
              ∷ codes "       now() - pg_postmaster_start_time() AS instance_uptime;"
              ∷ []))
        (codes
          "A very recent instance_start_time on the current writer is consistent with a recent promotion; cross-reference the exact timestamp against AWS RDS Events for the definitive cause.")
        (record sql_script_defaults {
          related_scripts = codes "../../performance/performance-after-failover/README.md";
        })
      ∷ [];
  aurora_notes =
      codes
        "The failover mechanism itself, its trigger conditions, and its detailed cause are managed and recorded by the Aurora control plane and are visible via AWS RDS Events / CloudTrail / the Console, not via any PostgreSQL catalog -- SQL can only confirm the current role and instance start time from inside the database."
      ∷ [];
  execution_guidance = codes "";
  expected_output_guidance = codes "";
  severe_incident_guidance = codes "";
}
