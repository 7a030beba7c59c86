-- ===== src/Registry/Connections/Checked.antt =====
-- What the checks say of the files rendered from wf_connections.py.
use postgres_dbre.Prelude.{refl, All, list_eq, nat_eq}
use postgres_dbre.Prelude.Dict.{lookup}
use postgres_dbre.Os.{FilePath}
use postgres_dbre.Catalog.{explicit_catalog}
use postgres_dbre.Registry.Accepted.{IsAccepted, IsCatalogued, checked}
use postgres_dbre.Registry.Connections.{connections_workflows}
use postgres_dbre.Registry.Connections.Category.{category_slug}
use postgres_dbre.Registry.Connections.ConnectionExhaustion.{connection_exhaustion_workflow}
use postgres_dbre.Registry.Connections.ConnectionSpikes.{connection_spikes_workflow}
use postgres_dbre.Registry.Connections.IdleConnections.{idle_connections_workflow}
use postgres_dbre.Registry.Connections.IdleInTransaction.{idle_in_transaction_workflow}
use postgres_dbre.Registry.Connections.ConnectionPooling.{connection_pooling_workflow}
use postgres_dbre.Registry.Connections.MaxConnectionsPlanning.{max_connections_planning_workflow}
use postgres_dbre.Registry.Connections.ApplicationConnectionAnalysis.{
  application_connection_analysis_workflow,
}
use postgres_dbre.SqlBlocks.Sessions.{
  connections_by_application_and_user, connections_by_state, idle_in_transaction_sessions,
  max_connections_headroom,
}

connection_exhaustion_workflow-IsAccepted :
    (p : FilePath) → IsAccepted p connection_exhaustion_workflow
unfolding checked connection_exhaustion_workflow connections_by_application_and_user
    max_connections_headroom
connection_exhaustion_workflow-IsAccepted p = record {
  scripts = ((refl, (refl, refl)), ((refl, (refl, refl)), tt));
  readme = refl;
  scripts_readme = refl;
  numbers = refl;
}

connection_spikes_workflow-IsAccepted : (p : FilePath) → IsAccepted p connection_spikes_workflow
unfolding checked connection_spikes_workflow connections_by_application_and_user
    connections_by_state
connection_spikes_workflow-IsAccepted p = record {
  scripts = ((refl, (refl, refl)), ((refl, (refl, refl)), tt));
  readme = refl;
  scripts_readme = refl;
  numbers = refl;
}

idle_connections_workflow-IsAccepted : (p : FilePath) → IsAccepted p idle_connections_workflow
unfolding checked idle_connections_workflow connections_by_application_and_user
idle_connections_workflow-IsAccepted p = record {
  scripts = ((refl, (refl, refl)), tt);
  readme = refl;
  scripts_readme = refl;
  numbers = refl;
}

idle_in_transaction_workflow-IsAccepted : (p : FilePath) → IsAccepted p idle_in_transaction_workflow
unfolding checked idle_in_transaction_workflow idle_in_transaction_sessions
idle_in_transaction_workflow-IsAccepted p = record {
  scripts = ((refl, (refl, refl)), tt);
  readme = refl;
  scripts_readme = refl;
  numbers = refl;
}

connection_pooling_workflow-IsAccepted : (p : FilePath) → IsAccepted p connection_pooling_workflow
unfolding checked connection_pooling_workflow connections_by_application_and_user
connection_pooling_workflow-IsAccepted p = record {
  scripts = ((refl, (refl, refl)), tt);
  readme = refl;
  scripts_readme = refl;
  numbers = refl;
}

max_connections_planning_workflow-IsAccepted :
    (p : FilePath) → IsAccepted p max_connections_planning_workflow
unfolding checked max_connections_planning_workflow connections_by_application_and_user
max_connections_planning_workflow-IsAccepted p = record {
  scripts = ((refl, (refl, refl)), tt);
  readme = refl;
  scripts_readme = refl;
  numbers = refl;
}

application_connection_analysis_workflow-IsAccepted :
    (p : FilePath) → IsAccepted p application_connection_analysis_workflow
unfolding checked application_connection_analysis_workflow
application_connection_analysis_workflow-IsAccepted p = record {
  scripts = ((refl, (refl, refl)), tt);
  readme = refl;
  scripts_readme = refl;
  numbers = refl;
}

pub connections_workflows-IsAccepted : (p : FilePath) → All (IsAccepted p) connections_workflows
connections_workflows-IsAccepted p = (
  connection_exhaustion_workflow-IsAccepted p,
  (
    connection_spikes_workflow-IsAccepted p,
    (
      idle_connections_workflow-IsAccepted p,
      (
        idle_in_transaction_workflow-IsAccepted p,
        (
          connection_pooling_workflow-IsAccepted p,
          (
            max_connections_planning_workflow-IsAccepted p,
            (application_connection_analysis_workflow-IsAccepted p, tt),
          ),
        ),
      ),
    ),
  ),
)

pub connections_workflows-IsCatalogued : IsCatalogued category_slug connections_workflows
unfolding explicit_catalog lookup list_eq nat_eq connection_exhaustion_workflow
    connection_spikes_workflow idle_connections_workflow idle_in_transaction_workflow
    connection_pooling_workflow max_connections_planning_workflow
    application_connection_analysis_workflow
connections_workflows-IsCatalogued = refl
