-- ===== src/Registry/Checked.antt =====
-- What the checks say of the files rendered from the registry.
use postgres_dbre.Prelude.{List, [], ◌∷◌, All}
use postgres_dbre.Text.{Text}
use postgres_dbre.Os.{FilePath}
use postgres_dbre.Model.{Workflow}
use postgres_dbre.Registry.Accepted.{IsAccepted, IsCatalogued}
use postgres_dbre.Registry.Connections.{connections_workflows}
use postgres_dbre.Registry.Connections.Category.{category_slug as connections_slug}
use postgres_dbre.Registry.Connections.Checked.{
  connections_workflows-IsAccepted, connections_workflows-IsCatalogued,
}
use postgres_dbre.Registry.Replication.{replication_workflows}
use postgres_dbre.Registry.Replication.Category.{category_slug as replication_slug}
use postgres_dbre.Registry.Replication.Checked.{
  replication_workflows-IsAccepted, replication_workflows-IsCatalogued,
}
use postgres_dbre.Registry.TablesIndexes.{tables_indexes_workflows}
use postgres_dbre.Registry.TablesIndexes.Category.{category_slug as tables_indexes_slug}
use postgres_dbre.Registry.TablesIndexes.Checked.{
  tables_indexes_workflows-IsAccepted, tables_indexes_workflows-IsCatalogued,
}

-- The slug of each category, with its workflows.
abbrev pub registered : List (Text × List Workflow)
registered =
    (connections_slug, connections_workflows)
    ∷ (replication_slug, replication_workflows)
    ∷ (tables_indexes_slug, tables_indexes_workflows)
    ∷ []

-- Whatever the paths of the files: of every category of `registered`, every workflow's scripts are
-- rendered to files about which the checks of headers, of destructive statements and of placeholders
-- report nothing, its READMEs have no placeholder, its scripts are numbered 1 up to their count, and
-- the category's workflows are those of the catalog, in its order.
pub registered-IsAccepted :
    (p : FilePath)
    → All (λ (category, ws). All (IsAccepted p) ws × IsCatalogued category ws) registered
registered-IsAccepted p = (
  (connections_workflows-IsAccepted p, connections_workflows-IsCatalogued),
  (
    (replication_workflows-IsAccepted p, replication_workflows-IsCatalogued),
    ((tables_indexes_workflows-IsAccepted p, tables_indexes_workflows-IsCatalogued), tt),
  ),
)
