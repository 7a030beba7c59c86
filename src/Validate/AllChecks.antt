-- ===== src/Validate/AllChecks.antt =====
-- checks.py: `ALL_CHECKS`, for a repository below the path `root`; `outside` answers whether a path
-- that leads out of the tree exists.
use postgres_dbre.Prelude.{Bool, List, [], ◌∷◌}
use postgres_dbre.Text.{Text, codes}
use postgres_dbre.Os.{FilePath, ok}
use postgres_dbre.Checks.Workflows.{check_workflow_readmes}
use postgres_dbre.Checks.Sql.{
  check_sql_headers, check_no_placeholders, check_no_destructive_statements,
}
use postgres_dbre.Checks.Filenames.{check_sequential_filenames}
use postgres_dbre.Checks.Completeness.{check_catalog_completeness}
use postgres_dbre.Checks.Links.{check_markdown_links}
use postgres_dbre.Checks.RepositoryMap.{check_repository_map}
use postgres_dbre.Validate.{Check}

unfoldable pub all_checks : (Text → Bool) → FilePath → List Check
all_checks outside root =
    (codes "workflow-readmes", λ fs. ok (check_workflow_readmes fs))
    ∷ (codes "sql-headers", check_sql_headers root)
    ∷ (codes "no-placeholders", check_no_placeholders root)
    ∷ (codes "no-destructive-statements", check_no_destructive_statements root)
    ∷ (codes "sequential-filenames", λ fs. ok (check_sequential_filenames root fs))
    ∷ (codes "catalog-completeness", λ fs. ok (check_catalog_completeness fs))
    ∷ (codes "markdown-links", check_markdown_links root)
    ∷ (codes "repository-map", check_repository_map outside)
    ∷ []
