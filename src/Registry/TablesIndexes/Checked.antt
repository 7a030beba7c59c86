-- ===== src/Registry/TablesIndexes/Checked.antt =====
-- What the checks say of the files rendered from wf_tables_indexes.py.
use postgres_dbre.Prelude.{refl, All, list_eq, nat_eq}
use postgres_dbre.Prelude.Dict.{lookup}
use postgres_dbre.Os.{FilePath}
use postgres_dbre.Catalog.{explicit_catalog}
use postgres_dbre.Registry.Accepted.{IsAccepted, IsCatalogued, checked}
use postgres_dbre.Registry.TablesIndexes.{tables_indexes_workflows}
use postgres_dbre.Registry.TablesIndexes.Category.{category_slug}
use postgres_dbre.Registry.TablesIndexes.UnusedIndexes.{unused_indexes_workflow}
use postgres_dbre.Registry.TablesIndexes.DuplicateIndexes.{duplicate_indexes_workflow}
use postgres_dbre.Registry.TablesIndexes.MissingIndexCandidates.{missing_index_candidates_workflow}
use postgres_dbre.Registry.TablesIndexes.SequentialScanInvestigation.{
  sequential_scan_investigation_workflow,
}
use postgres_dbre.Registry.TablesIndexes.IndexBloat.{index_bloat_workflow}
use postgres_dbre.Registry.TablesIndexes.TableBloat.{table_bloat_workflow}
use postgres_dbre.Registry.TablesIndexes.InvalidIndexes.{invalid_indexes_workflow}
use postgres_dbre.Registry.TablesIndexes.LargeTables.{large_tables_workflow}
use postgres_dbre.Registry.TablesIndexes.RapidlyGrowingTables.{rapidly_growing_tables_workflow}
use postgres_dbre.Registry.TablesIndexes.TableAccessPatterns.{table_access_patterns_workflow}
use postgres_dbre.SqlBlocks.Indexes.{
  duplicate_indexes, foreign_keys_missing_index, invalid_indexes, sequential_scan_heavy_tables,
  statistics_freshness,
}
use postgres_dbre.SqlBlocks.Storage.{
  largest_indexes, largest_tables, table_growth_rate_from_snapshot,
}
use postgres_dbre.SqlBlocks.Vacuum.{
  index_bloat_and_usage, pgstattuple_exact_bloat, table_bloat_estimate, unused_indexes,
}

unused_indexes_workflow-IsAccepted : (p : FilePath) → IsAccepted p unused_indexes_workflow
unfolding checked unused_indexes_workflow unused_indexes
unused_indexes_workflow-IsAccepted p = record {
  scripts = ((refl, (refl, refl)), tt);
  readme = refl;
  scripts_readme = refl;
  numbers = refl;
}

duplicate_indexes_workflow-IsAccepted : (p : FilePath) → IsAccepted p duplicate_indexes_workflow
unfolding checked duplicate_indexes_workflow duplicate_indexes
duplicate_indexes_workflow-IsAccepted p = record {
  scripts = ((refl, (refl, refl)), tt);
  readme = refl;
  scripts_readme = refl;
  numbers = refl;
}

missing_index_candidates_workflow-IsAccepted :
    (p : FilePath) → IsAccepted p missing_index_candidates_workflow
unfolding checked missing_index_candidates_workflow foreign_keys_missing_index
    sequential_scan_heavy_tables
missing_index_candidates_workflow-IsAccepted p = record {
  scripts = ((refl, (refl, refl)), ((refl, (refl, refl)), tt));
  readme = refl;
  scripts_readme = refl;
  numbers = refl;
}

sequential_scan_investigation_workflow-IsAccepted :
    (p : FilePath) → IsAccepted p sequential_scan_investigation_workflow
unfolding checked sequential_scan_investigation_workflow sequential_scan_heavy_tables
    statistics_freshness
sequential_scan_investigation_workflow-IsAccepted p = record {
  scripts = ((refl, (refl, refl)), ((refl, (refl, refl)), tt));
  readme = refl;
  scripts_readme = refl;
  numbers = refl;
}

index_bloat_workflow-IsAccepted : (p : FilePath) → IsAccepted p index_bloat_workflow
unfolding checked index_bloat_workflow index_bloat_and_usage
index_bloat_workflow-IsAccepted p = record {
  scripts = ((refl, (refl, refl)), tt);
  readme = refl;
  scripts_readme = refl;
  numbers = refl;
}

table_bloat_workflow-IsAccepted : (p : FilePath) → IsAccepted p table_bloat_workflow
unfolding checked table_bloat_workflow pgstattuple_exact_bloat table_bloat_estimate
table_bloat_workflow-IsAccepted p = record {
  scripts = ((refl, (refl, refl)), ((refl, (refl, refl)), tt));
  readme = refl;
  scripts_readme = refl;
  numbers = refl;
}

invalid_indexes_workflow-IsAccepted : (p : FilePath) → IsAccepted p invalid_indexes_workflow
unfolding checked invalid_indexes_workflow invalid_indexes
invalid_indexes_workflow-IsAccepted p = record {
  scripts = ((refl, (refl, refl)), tt);
  readme = refl;
  scripts_readme = refl;
  numbers = refl;
}

large_tables_workflow-IsAccepted : (p : FilePath) → IsAccepted p large_tables_workflow
unfolding checked large_tables_workflow largest_indexes largest_tables
large_tables_workflow-IsAccepted p = record {
  scripts = ((refl, (refl, refl)), ((refl, (refl, refl)), tt));
  readme = refl;
  scripts_readme = refl;
  numbers = refl;
}

rapidly_growing_tables_workflow-IsAccepted :
    (p : FilePath) → IsAccepted p rapidly_growing_tables_workflow
unfolding checked rapidly_growing_tables_workflow table_growth_rate_from_snapshot
rapidly_growing_tables_workflow-IsAccepted p = record {
  scripts = ((refl, (refl, refl)), tt);
  readme = refl;
  scripts_readme = refl;
  numbers = refl;
}

table_access_patterns_workflow-IsAccepted :
    (p : FilePath) → IsAccepted p table_access_patterns_workflow
unfolding checked table_access_patterns_workflow
table_access_patterns_workflow-IsAccepted p = record {
  scripts = ((refl, (refl, refl)), tt);
  readme = refl;
  scripts_readme = refl;
  numbers = refl;
}

pub tables_indexes_workflows-IsAccepted :
    (p : FilePath) → All (IsAccepted p) tables_indexes_workflows
tables_indexes_workflows-IsAccepted p = (
  unused_indexes_workflow-IsAccepted p,
  (
    duplicate_indexes_workflow-IsAccepted p,
    (
      missing_index_candidates_workflow-IsAccepted p,
      (
        sequential_scan_investigation_workflow-IsAccepted p,
        (
          index_bloat_workflow-IsAccepted p,
          (
            table_bloat_workflow-IsAccepted p,
            (
              invalid_indexes_workflow-IsAccepted p,
              (
                large_tables_workflow-IsAccepted p,
                (
                  rapidly_growing_tables_workflow-IsAccepted p,
                  (table_access_patterns_workflow-IsAccepted p, tt),
                ),
              ),
            ),
          ),
        ),
      ),
    ),
  ),
)

pub tables_indexes_workflows-IsCatalogued : IsCatalogued category_slug tables_indexes_workflows
unfolding explicit_catalog lookup list_eq nat_eq unused_indexes_workflow duplicate_indexes_workflow
    missing_index_candidates_workflow sequential_scan_investigation_workflow index_bloat_workflow
    table_bloat_workflow invalid_indexes_workflow large_tables_workflow
    rapidly_growing_tables_workflow table_access_patterns_workflow
tables_indexes_workflows-IsCatalogued = refl
