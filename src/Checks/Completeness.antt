-- ===== src/Checks/Completeness.antt =====
-- checks.py: `check_catalog_completeness`.
pub mod Exact
use postgres_dbre.Prelude.{
  ◌≡◌, refl, Bool, true, false, not, List, [], ◌∷◌, ◌++◌, map, any, keep_if, contains, is_empty,
  if◌then◌else◌, nat_eq, list_eq, sorted, to_set,
}
use postgres_dbre.Prelude.Dict.{Dict}
use postgres_dbre.Text.{Text, codes, concat, text_le}
use postgres_dbre.Os.{FilePath, Fs, is_dir}
use postgres_dbre.Catalog.{explicit_catalog, open_catalog, all_expected_categories}
use postgres_dbre.Checks.{
  Issue, Severity, error, warning, name_of, when, entries_of, discover_category_dirs,
}

abbrev pub completeness_issue : Severity → Text → Text → Issue
completeness_issue severity path message = record {
  severity = severity;
  check = codes "catalog-completeness";
  path = path;
  message = message;
}

abbrev pub missing_category : Text → Issue
missing_category category =
    completeness_issue error category
      (codes "category required by the authoritative catalog is missing")

abbrev under : Text → Text → Text
under category workflow = concat (category ∷ codes "/" ∷ workflow ∷ [])

abbrev pub missing_workflow : Text → Text → Issue
missing_workflow category workflow =
    completeness_issue error (under category workflow)
      (codes "workflow required by the authoritative catalog is missing")

abbrev pub extra_workflow : Text → Text → Issue
extra_workflow category workflow =
    completeness_issue error (under category workflow)
      (codes "workflow directory is not present in the authoritative catalog")

-- The names of the directories below a path.
unfoldable pub dirs_below : Fs → FilePath → List Text
dirs_below fs dir = map name_of (keep_if (λ p. is_dir p fs) (entries_of dir fs))

-- `sorted(set(xs) - ys)`
unfoldable pub difference : List Text → List Text → List Text
difference xs ys = sorted text_le (to_set (keep_if (λ x. not (contains ys x)) xs))

-- One category, by the workflows that the catalog and the tree have.
unfoldable pub category_issues : Text → List Text → List Text → List Issue
category_issues category expected existing =
    map (missing_workflow category) (difference expected existing)
    ++ map (extra_workflow category) (difference existing expected)

abbrev pub catalog_issues : Fs → Dict Text (List Text) → List Issue
catalog_issues fs [] = []
catalog_issues fs ((category, expected) ∷ rest) =
    (if is_dir (category ∷ []) fs
      then category_issues category expected (dirs_below fs (category ∷ []))
      else [])
    ++ catalog_issues fs rest

abbrev open_issues : Fs → List Text → List Issue
open_issues fs [] = []
open_issues fs (category ∷ rest) =
    (if is_dir (category ∷ []) fs
      then when (is_empty (dirs_below fs (category ∷ []))) (
          completeness_issue warning category
            (codes "category directory exists but has no workflows yet"))
      else [])
    ++ open_issues fs rest

unfoldable pub check_catalog_completeness : Fs → List Issue
check_catalog_completeness fs =
    let existing = map name_of (discover_category_dirs fs) in
    map missing_category (keep_if (λ c. not (contains existing c)) all_expected_categories)
    ++ (catalog_issues fs explicit_catalog ++ open_issues fs open_catalog)
