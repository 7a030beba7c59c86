-- ===== src/Registry/TablesIndexes.antt =====
-- tools/repo_builder/wf_tables_indexes.py: `WORKFLOWS`.
pub mod Category
pub mod UnusedIndexes
pub mod DuplicateIndexes
pub mod MissingIndexCandidates
pub mod SequentialScanInvestigation
pub mod IndexBloat
pub mod TableBloat
pub mod InvalidIndexes
pub mod LargeTables
pub mod RapidlyGrowingTables
pub mod TableAccessPatterns
pub mod Checked
use postgres_dbre.Prelude.{List, [], ◌∷◌}
use postgres_dbre.Model.{Workflow}
use postgres_dbre.Registry.TablesIndexes.UnusedIndexes.{unused_indexes_workflow}
use postgres_dbre.Registry.TablesIndexes.DuplicateIndexes.{duplicate_indexes_workflow}
use postgres_dbre.Registry.TablesIndexes.MissingIndexCandidates.{missing_index_candidates_workflow}
use postgres_dbre.Registry.TablesIndexes.SequentialScanInvestigation.{
  sequential_scan_investigation_workflow,
}
use postgres_dbre.Registry.TablesIndexes.IndexBloat.{index_bloat_workflow}
use postgres_dbre.Registry.TablesIndexes.TableBloat.{table_bloat_workflow}
use postgres_dbre.Registry.TablesIndexes.InvalidIndexes.{invalid_indexes_workflow}
use postgres_dbre.Registry.TablesIndexes.LargeTables.{large_tables_workflow}
use postgres_dbre.Registry.TablesIndexes.RapidlyGrowingTables.{rapidly_growing_tables_workflow}
use postgres_dbre.Registry.TablesIndexes.TableAccessPatterns.{table_access_patterns_workflow}

abbrev pub tables_indexes_workflows : List Workflow
tables_indexes_workflows =
    unused_indexes_workflow ∷ duplicate_indexes_workflow ∷ missing_index_candidates_workflow
    ∷ sequential_scan_investigation_workflow ∷ index_bloat_workflow ∷ table_bloat_workflow
    ∷ invalid_indexes_workflow ∷ large_tables_workflow ∷ rapidly_growing_tables_workflow
    ∷ table_access_patterns_workflow ∷ []
