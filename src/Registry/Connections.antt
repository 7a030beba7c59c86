-- ===== src/Registry/Connections.antt =====
-- tools/repo_builder/wf_connections.py: `WORKFLOWS`.
pub mod Category
pub mod ConnectionExhaustion
pub mod ConnectionSpikes
pub mod IdleConnections
pub mod IdleInTransaction
pub mod ConnectionPooling
pub mod MaxConnectionsPlanning
pub mod ApplicationConnectionAnalysis
pub mod Checked
use postgres_dbre.Prelude.{List, [], ◌∷◌}
use postgres_dbre.Model.{Workflow}
use postgres_dbre.Registry.Connections.ConnectionExhaustion.{connection_exhaustion_workflow}
use postgres_dbre.Registry.Connections.ConnectionSpikes.{connection_spikes_workflow}
use postgres_dbre.Registry.Connections.IdleConnections.{idle_connections_workflow}
use postgres_dbre.Registry.Connections.IdleInTransaction.{idle_in_transaction_workflow}
use postgres_dbre.Registry.Connections.ConnectionPooling.{connection_pooling_workflow}
use postgres_dbre.Registry.Connections.MaxConnectionsPlanning.{max_connections_planning_workflow}
use postgres_dbre.Registry.Connections.ApplicationConnectionAnalysis.{
  application_connection_analysis_workflow,
}

abbrev pub connections_workflows : List Workflow
connections_workflows =
    connection_exhaustion_workflow ∷ connection_spikes_workflow ∷ idle_connections_workflow
    ∷ idle_in_transaction_workflow ∷ connection_pooling_workflow ∷ max_connections_planning_workflow
    ∷ application_connection_analysis_workflow ∷ []
