-- ===== src/Registry/Replication.antt =====
-- tools/repo_builder/wf_replication.py: `WORKFLOWS`.
pub mod Category
pub mod ReplicationLag
pub mod ReaderPerformance
pub mod ReaderLagInvestigation
pub mod FailoverInvestigation
pub mod FailoverReadiness
pub mod WriterReaderImbalance
pub mod ReplicationHealth
pub mod Checked
use postgres_dbre.Prelude.{List, [], ◌∷◌}
use postgres_dbre.Model.{Workflow}
use postgres_dbre.Registry.Replication.ReplicationLag.{replication_lag_workflow}
use postgres_dbre.Registry.Replication.ReaderPerformance.{reader_performance_workflow}
use postgres_dbre.Registry.Replication.ReaderLagInvestigation.{reader_lag_investigation_workflow}
use postgres_dbre.Registry.Replication.FailoverInvestigation.{failover_investigation_workflow}
use postgres_dbre.Registry.Replication.FailoverReadiness.{failover_readiness_workflow}
use postgres_dbre.Registry.Replication.WriterReaderImbalance.{writer_reader_imbalance_workflow}
use postgres_dbre.Registry.Replication.ReplicationHealth.{replication_health_workflow}

abbrev pub replication_workflows : List Workflow
replication_workflows =
    replication_lag_workflow ∷ reader_performance_workflow ∷ reader_lag_investigation_workflow
    ∷ failover_investigation_workflow ∷ failover_readiness_workflow
    ∷ writer_reader_imbalance_workflow ∷ replication_health_workflow ∷ []
