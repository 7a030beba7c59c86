-- ===== src/Registry/Replication/Checked.antt =====
-- What the checks say of the files rendered from wf_replication.py.
use postgres_dbre.Prelude.{refl, All, list_eq, nat_eq}
use postgres_dbre.Prelude.Dict.{lookup}
use postgres_dbre.Os.{FilePath}
use postgres_dbre.Catalog.{explicit_catalog}
use postgres_dbre.Registry.Accepted.{IsAccepted, IsCatalogued, checked}
use postgres_dbre.Registry.Replication.{replication_workflows}
use postgres_dbre.Registry.Replication.Category.{category_slug}
use postgres_dbre.Registry.Replication.ReplicationLag.{replication_lag_workflow}
use postgres_dbre.Registry.Replication.ReaderPerformance.{reader_performance_workflow}
use postgres_dbre.Registry.Replication.ReaderLagInvestigation.{reader_lag_investigation_workflow}
use postgres_dbre.Registry.Replication.FailoverInvestigation.{failover_investigation_workflow}
use postgres_dbre.Registry.Replication.FailoverReadiness.{failover_readiness_workflow}
use postgres_dbre.Registry.Replication.WriterReaderImbalance.{writer_reader_imbalance_workflow}
use postgres_dbre.Registry.Replication.ReplicationHealth.{replication_health_workflow}
use postgres_dbre.SqlBlocks.Replication.{
  aurora_replica_status, cluster_recovery_role, replication_slots_and_wal_retention,
  standard_streaming_replication_status,
}
use postgres_dbre.SqlBlocks.Sessions.{
  active_long_running_queries, connections_by_application_and_user,
}
use postgres_dbre.SqlBlocks.Storage.{wal_activity}
use postgres_dbre.SqlBlocks.Wal.{checkpoint_activity}

replication_lag_workflow-IsAccepted : (p : FilePath) → IsAccepted p replication_lag_workflow
unfolding checked replication_lag_workflow active_long_running_queries aurora_replica_status
    standard_streaming_replication_status wal_activity
replication_lag_workflow-IsAccepted p = record {
  scripts = (
    (refl, (refl, refl)),
    ((refl, (refl, refl)), ((refl, (refl, refl)), ((refl, (refl, refl)), tt))),
  );
  readme = refl;
  scripts_readme = refl;
  numbers = refl;
}

reader_performance_workflow-IsAccepted : (p : FilePath) → IsAccepted p reader_performance_workflow
unfolding checked reader_performance_workflow aurora_replica_status
reader_performance_workflow-IsAccepted p = record {
  scripts = ((refl, (refl, refl)), ((refl, (refl, refl)), tt));
  readme = refl;
  scripts_readme = refl;
  numbers = refl;
}

reader_lag_investigation_workflow-IsAccepted :
    (p : FilePath) → IsAccepted p reader_lag_investigation_workflow
unfolding checked reader_lag_investigation_workflow aurora_replica_status checkpoint_activity
reader_lag_investigation_workflow-IsAccepted p = record {
  scripts = ((refl, (refl, refl)), ((refl, (refl, refl)), tt));
  readme = refl;
  scripts_readme = refl;
  numbers = refl;
}

failover_investigation_workflow-IsAccepted :
    (p : FilePath) → IsAccepted p failover_investigation_workflow
unfolding checked failover_investigation_workflow cluster_recovery_role
failover_investigation_workflow-IsAccepted p = record {
  scripts = ((refl, (refl, refl)), tt);
  readme = refl;
  scripts_readme = refl;
  numbers = refl;
}

failover_readiness_workflow-IsAccepted : (p : FilePath) → IsAccepted p failover_readiness_workflow
unfolding checked failover_readiness_workflow cluster_recovery_role
failover_readiness_workflow-IsAccepted p = record {
  scripts = ((refl, (refl, refl)), tt);
  readme = refl;
  scripts_readme = refl;
  numbers = refl;
}

writer_reader_imbalance_workflow-IsAccepted :
    (p : FilePath) → IsAccepted p writer_reader_imbalance_workflow
unfolding checked writer_reader_imbalance_workflow connections_by_application_and_user
writer_reader_imbalance_workflow-IsAccepted p = record {
  scripts = ((refl, (refl, refl)), tt);
  readme = refl;
  scripts_readme = refl;
  numbers = refl;
}

replication_health_workflow-IsAccepted : (p : FilePath) → IsAccepted p replication_health_workflow
unfolding checked replication_health_workflow aurora_replica_status
    replication_slots_and_wal_retention
replication_health_workflow-IsAccepted p = record {
  scripts = ((refl, (refl, refl)), ((refl, (refl, refl)), tt));
  readme = refl;
  scripts_readme = refl;
  numbers = refl;
}

pub replication_workflows-IsAccepted : (p : FilePath) → All (IsAccepted p) replication_workflows
replication_workflows-IsAccepted p = (
  replication_lag_workflow-IsAccepted p,
  (
    reader_performance_workflow-IsAccepted p,
    (
      reader_lag_investigation_workflow-IsAccepted p,
      (
        failover_investigation_workflow-IsAccepted p,
        (
          failover_readiness_workflow-IsAccepted p,
          (
            writer_reader_imbalance_workflow-IsAccepted p,
            (replication_health_workflow-IsAccepted p, tt),
          ),
        ),
      ),
    ),
  ),
)

pub replication_workflows-IsCatalogued : IsCatalogued category_slug replication_workflows
unfolding explicit_catalog lookup list_eq nat_eq replication_lag_workflow
    reader_performance_workflow reader_lag_investigation_workflow failover_investigation_workflow
    failover_readiness_workflow writer_reader_imbalance_workflow replication_health_workflow
replication_workflows-IsCatalogued = refl
