-- ===== src/Registry/Replication/FailoverReadiness.antt =====
-- tools/repo_builder/wf_replication.py: the workflow `failover-readiness`.
use postgres_dbre.Prelude.{[], ◌∷◌}
use postgres_dbre.Text.{codes}
use postgres_dbre.Model.{Workflow}
use postgres_dbre.Helpers.{sql_script, sql_script_defaults}
use postgres_dbre.SqlBlocks.Replication.{cluster_recovery_role}
use postgres_dbre.Registry.Replication.Category.{category_slug, category_title}

unfoldable pub failover_readiness_workflow : Workflow
failover_readiness_workflow = record {
  category_slug = category_slug;
  category_title = category_title;
  slug = codes "failover-readiness";
  title = codes "Failover Readiness Assessment";
  summary =
      codes
        "Proactive assessment of whether the cluster and application are well-prepared for a failover, before one occurs -- covering reader fleet adequacy, application retry/backoff behavior, and connection endpoint usage.";
  symptoms =
      codes
        "No active symptom -- proactive readiness review, typically ahead of a planned maintenance window or as a standing operational practice."
      ∷ [];
  business_impact =
      codes
        "Failover readiness directly determines how disruptive an inevitable future failover (planned or unplanned) will be to the business -- assessed and improved proactively, not discovered reactively during an actual incident."
      ∷ [];
  root_causes = codes "N/A -- proactive assessment workflow." ∷ [];
  investigation_strategy =
      codes
        "Confirm the application uses the cluster/reader endpoints correctly (not a hardcoded specific instance IP/hostname)."
      ∷ codes "Confirm at least one healthy reader exists to serve as failover target."
      ∷ codes "Confirm application-side connection retry/backoff behavior is documented and tested."
      ∷ [];
  prerequisites =
      codes "Access to application connection-string/endpoint configuration for review." ∷ [];
  interpretation_guide =
      codes
        "An application connecting via a specific instance's endpoint/IP rather than the cluster (writer) endpoint will NOT automatically follow a failover and will experience an extended outage until manually reconfigured -- this is the single most critical readiness check."
      ∷ [];
  remediation_immediate = codes "N/A." ∷ [];
  remediation_short_term =
      codes
        "Fix any application connecting via a hardcoded instance endpoint instead of the cluster/reader endpoint immediately -- this is a readiness gap, not just an optimization."
      ∷ [];
  remediation_long_term =
      codes
        "Schedule regular failover drills (see disaster-recovery/cluster-failover-drill) to validate readiness empirically, not just via configuration review."
      ∷ [];
  production_safety =
      codes "This is a review/assessment workflow; the SQL scripts here are read-only." ∷ [];
  escalation_criteria =
      codes
        "A business-critical service is found connecting via a hardcoded instance endpoint -- escalate to that service's owning team immediately as a standing availability risk."
      ∷ [];
  related_issues =
      codes "../failover-investigation/README.md"
      ∷ codes "../../disaster-recovery/cluster-failover-drill/README.md"
      ∷ [];
  scripts =
      sql_script (codes "01") (codes "01_current_cluster_topology")
        (codes
          "Confirms current writer/reader role for the connection being tested, to be run against each endpoint your applications actually use.")
        cluster_recovery_role
        (codes
          "Run this against the writer/cluster endpoint AND the reader endpoint your applications use; confirm each resolves to the role you expect. If an application's configured endpoint resolves to a specific instance rather than a cluster/reader endpoint, this is a readiness gap.")
        (record sql_script_defaults {
          related_scripts = codes "../../disaster-recovery/cluster-failover-drill/README.md";
        })
      ∷ [];
  aurora_notes = [];
  execution_guidance = codes "";
  expected_output_guidance = codes "";
  severe_incident_guidance = codes "";
}
