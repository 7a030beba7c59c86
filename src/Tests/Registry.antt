-- ===== src/Tests/Registry.antt =====
-- The theorems about the registry at one of its modules.
use postgres_dbre.Prelude.{refl, inl, List, [], ◌∷◌, All, if◌then◌else◌, ◌==◌, nat_eq, list_eq}
use postgres_dbre.Prelude.Dict.{lookup}
use postgres_dbre.Text.{Text, codes}
use postgres_dbre.Os.{FilePath}
use postgres_dbre.Build.{Registered, select_modules, category_modules}
use postgres_dbre.Build.Passed.{main-keeps_passed}
use postgres_dbre.Writer.Workflows.{render_script}
use postgres_dbre.Model.{Script, Workflow}
use postgres_dbre.Checks.Sql.Passed.{IsPassedSql}
use postgres_dbre.Registry.Accepted.{IsAccepted, IsCatalogued, checked}
use postgres_dbre.Registry.Checked.{registered, registered-IsAccepted}
use postgres_dbre.Registry.Built.{accepted-Passed, registered_build-keeps_passed}
use postgres_dbre.Registry.Connections.{connections_workflows}
use postgres_dbre.Registry.Connections.Checked.{connections_workflows-IsAccepted}
use postgres_dbre.Registry.Connections.ConnectionExhaustion.{connection_exhaustion_workflow}
use postgres_dbre.Registry.Connections.ConnectionSpikes.{connection_spikes_workflow}
use postgres_dbre.Registry.Connections.IdleConnections.{idle_connections_workflow}
use postgres_dbre.Registry.Connections.IdleInTransaction.{idle_in_transaction_workflow}
use postgres_dbre.Registry.Connections.ConnectionPooling.{connection_pooling_workflow}
use postgres_dbre.Registry.Connections.MaxConnectionsPlanning.{max_connections_planning_workflow}
use postgres_dbre.Registry.Connections.ApplicationConnectionAnalysis.{
  application_connection_analysis_workflow,
}
use postgres_dbre.Tests.Building.{connections_module, only, run_build}
use postgres_dbre.Tests.Writing.{one_digest}

registered-IsAccepted_example :
    All
      (λ (category, ws). All (IsAccepted (codes "01_a.sql" ∷ [])) ws × IsCatalogued category ws)
      registered
registered-IsAccepted_example = registered-IsAccepted (codes "01_a.sql" ∷ [])

registry_of : List Workflow → Text → Registered
registry_of ws m =
    if m == connections_module
    then record { workflows = ws; category = codes "connections" }
    else record { workflows = []; category = codes "other" }

abbrev snapshot : FilePath
snapshot =
    codes "01_connection_state_snapshot.sql"
    ∷ codes "scripts"
    ∷ codes "connection-spikes"
    ∷ codes "connections"
    ∷ []

abbrev first_script : Workflow → Text
first_script wf = of_scripts wf.scripts
  where
    of_scripts : List Script → Text
    of_scripts [] = []
    of_scripts (s ∷ rest) = render_script wf s

-- What the build of the module calls.
build_registry : Text → Registered
unfolding run_build checked registry_of select_modules category_modules lookup
    connection_exhaustion_workflow connection_spikes_workflow idle_connections_workflow
    idle_in_transaction_workflow connection_pooling_workflow max_connections_planning_workflow
    application_connection_analysis_workflow
build_registry = registry_of connections_workflows

registered_build-keeps_passed_example :
    IsPassedSql snapshot (first_script connection_spikes_workflow)
unfolding build_registry
registered_build-keeps_passed_example =
    registered_build-keeps_passed one_digest (registry_of connections_workflows) (codes "r") only []
      (inl refl, tt) (λ p t at. cc) snapshot (first_script connection_spikes_workflow) refl

main-keeps_passed_example : IsPassedSql snapshot (first_script connection_spikes_workflow)
unfolding build_registry
main-keeps_passed_example =
    main-keeps_passed (registry_of connections_workflows) one_digest (codes "r") only []
      (accepted-Passed connections_workflows connections_workflows-IsAccepted, tt) (λ p t at. cc)
      snapshot (first_script connection_spikes_workflow) refl
