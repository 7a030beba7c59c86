-- ===== src/Registry/Replication/ReaderLagInvestigation.antt =====
-- tools/repo_builder/wf_replication.py: the workflow `reader-lag-investigation`.
use postgres_dbre.Prelude.{[], ◌∷◌}
use postgres_dbre.Text.{codes}
use postgres_dbre.Model.{Workflow}
use postgres_dbre.Helpers.{sql_script, sql_script_defaults, writer_only}
use postgres_dbre.SqlBlocks.Replication.{aurora_replica_status}
use postgres_dbre.SqlBlocks.Wal.{checkpoint_activity}
use postgres_dbre.Registry.Replication.Category.{category_slug, category_title}

unfoldable pub reader_lag_investigation_workflow : Workflow
reader_lag_investigation_workflow = record {
  category_slug = category_slug;
  category_title = category_title;
  slug = codes "reader-lag-investigation";
  title = codes "Reader Lag Deep-Dive Investigation";
  summary =
      codes
        "A deeper, more structured investigation than replication-lag for cases where initial checks did not resolve the cause, walking through writer write-rate, storage I/O, and reader-side factors systematically.";
  symptoms =
      codes "replication-lag's initial checks did not identify a clear cause."
      ∷ codes "Lag is intermittent/bursty rather than sustained, making correlation harder."
      ∷ [];
  business_impact =
      codes
        "Same as replication-lag; this workflow exists for cases requiring a more systematic, multi-factor investigation."
      ∷ [];
  root_causes =
      codes
        "A combination of factors (moderate write volume plus a moderately undersized reader) rather than one single dominant cause."
      ∷ codes "Bursty batch/reporting workloads on the writer periodically spiking WAL generation."
      ∷ [];
  investigation_strategy =
      codes "Re-confirm current lag levels across all readers."
      ∷ codes "Correlate lag spikes against writer WAL generation over the same time window."
      ∷ codes "Correlate lag spikes against checkpoint activity on the writer."
      ∷ codes "Check for reader-side long-running queries at the same timestamps."
      ∷ [];
  prerequisites =
      codes
        "Ability to correlate timestamps across writer and reader observations -- ideally via CloudWatch metrics correlation in addition to these SQL snapshots."
      ∷ [];
  interpretation_guide =
      codes
        "Bursty lag correlating with periodic batch jobs (e.g. an hourly reporting query on the writer generating heavy WAL) points to a scheduling fix (move the batch job off-peak or to a reader) rather than a capacity fix."
      ∷ [];
  remediation_immediate =
      codes "N/A -- deep-dive investigation, not an emergency workflow itself." ∷ [];
  remediation_short_term =
      codes "Reschedule identified WAL-heavy batch jobs to lower-traffic windows." ∷ [];
  remediation_long_term = codes "See replication-lag's long-term guidance." ∷ [];
  production_safety = codes "Read-only." ∷ [];
  escalation_criteria =
      codes
        "No clear pattern emerges after this deeper investigation -- open an AWS Support case with the gathered evidence."
      ∷ [];
  related_issues = codes "../replication-lag/README.md" ∷ [];
  scripts =
      sql_script (codes "01") (codes "01_all_readers_lag_snapshot")
        (codes
          "Snapshots lag across every reader in the cluster simultaneously for cross-reader comparison.")
        aurora_replica_status
        (codes
          "Compare lag across all readers at the same instant; uniform elevated lag across all readers points to a writer/cluster-wide cause, while an outlier reader points to an instance-specific cause.")
        (record sql_script_defaults {
          related_scripts = codes "02_writer_checkpoint_correlation.sql";
        })
      ∷ sql_script (codes "02") (codes "02_writer_checkpoint_correlation")
          (codes "Checks writer checkpoint activity to correlate against lag spikes.")
          checkpoint_activity
          (codes
            "A high pct_forced_checkpoints occurring in the same window as observed lag spikes suggests checkpoint-driven WAL/I/O bursts as a contributing factor.")
          (record sql_script_defaults {
            execution_location = writer_only;
            related_scripts = codes "../replication-lag/README.md";
          })
      ∷ [];
  aurora_notes = [];
  execution_guidance = codes "";
  expected_output_guidance = codes "";
  severe_incident_guidance = codes "";
}
