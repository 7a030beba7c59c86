-- ===== src/Checks.antt =====
-- tools/validation/checks.py: issues and the discovery of directories and files. Each check is a
-- child. `root` is the path of the repository's root, last name first; a check reads the tree.
pub mod Silence
pub mod Workflows
pub mod Sql
pub mod Filenames
pub mod Completeness
pub mod Links
pub mod RepositoryMap
use postgres_dbre.Prelude.{
  ℕ, ◌≡◌, refl, Bool, true, false, not, ◌&&◌, ◌||◌, Option, none, some, List, [], ◌∷◌, ◌++◌, map,
  reverse, any, keep_if, contains, if◌then◌else◌, ◌==◌, nat_eq, list_eq, sorted, to_set,
}
use postgres_dbre.Prelude.Dict.{lookup, keys}
use postgres_dbre.Text.{Text, codes, starts_with, text_le, join}
use postgres_dbre.Os.{
  FilePath, Fs, Node, file, raw, directory, symlink, Result, ok, err, and_then, map_ok, is_dir,
  is_child_of, universal_newlines, os_error, file_not_found,
}
use postgres_dbre.Catalog.{non_category_root_dirs}

pub data Severity : Type 0 where
  error warning : Severity

pub record Issue : Type 0 where
  pub severity : Severity
  pub check : Text
  pub path : Text
  pub message : Text

-- `path.name` below the root, `path.parent` and `_rel`.
abbrev pub name_of : FilePath → Text
name_of [] = []
name_of (name ∷ _) = name

abbrev pub parent_of : FilePath → FilePath
parent_of [] = []
parent_of (_ ∷ dir) = dir

unfoldable pub rel : FilePath → Text
rel [] = codes "."
rel (name ∷ dir) = join (codes "/") (reverse (name ∷ dir))

-- Paths are compared by their parts.
abbrev names_le : List Text → List Text → Bool
names_le [] ys = true
names_le (x ∷ xs) [] = false
names_le (x ∷ xs) (y ∷ ys) = let later = names_le xs ys in if x == y then later else text_le x y

unfoldable pub path_le : FilePath → FilePath → Bool
path_le p q = names_le (reverse p) (reverse q)

-- `sorted(dir.iterdir())`
unfoldable pub entries_of : FilePath → Fs → List FilePath
entries_of dir fs = sorted path_le (keep_if (is_child_of dir) (keys fs))

abbrev pub ends_with : Text → Text → Bool
ends_with s suffix = starts_with (reverse s) (reverse suffix)

-- `root.rglob("*" + suffix)`
unfoldable pub rglob : Text → Fs → List FilePath
rglob suffix fs = keep_if (λ p. ends_with (name_of p) suffix) (keys fs)

-- `path.read_text(encoding="utf-8", errors="replace")`
abbrev replaced : FilePath → Option Node → Result Text
replaced path (some (file s)) = ok (universal_newlines s)
replaced path (some (raw s)) = ok (universal_newlines s)
replaced path (some directory) = err (os_error path)
replaced path _ = err (file_not_found path)

unfoldable pub read_replaced : Fs → FilePath → Result Text
read_replaced fs path = replaced path (lookup path fs)

abbrev is_category : Fs → FilePath → Bool
is_category fs p =
    is_dir p fs
    && not (contains non_category_root_dirs (name_of p))
    && not (starts_with (name_of p) (codes "."))

unfoldable pub discover_category_dirs : Fs → List FilePath
discover_category_dirs fs = keep_if (is_category fs) (entries_of [] fs)

abbrev pub flat_paths : (FilePath → List FilePath) → List FilePath → List FilePath
flat_paths f [] = []
flat_paths f (p ∷ ps) = f p ++ flat_paths f ps

unfoldable pub discover_workflow_dirs : Fs → List FilePath
discover_workflow_dirs fs =
    flat_paths (λ category. keep_if (λ child. is_dir child fs) (entries_of category fs))
      (discover_category_dirs fs)

abbrev excluded_dirs : List Text
excluded_dirs = codes ".git" ∷ codes "node_modules" ∷ []

module _ (root : FilePath) where
  unfoldable pub discover_sql_files : Fs → List FilePath
  discover_sql_files fs =
      sorted path_le
        (keep_if (λ p. not (any (contains excluded_dirs) (p ++ root))) (rglob (codes ".sql") fs))

  unfoldable pub discover_scripts_dirs : Fs → List FilePath
  discover_scripts_dirs fs = sorted path_le (
      to_set (
        map parent_of (
          keep_if (λ p. name_of (parent_of p ++ root) == codes "scripts") (discover_sql_files fs))))

-- The issues of a loop, in order; the first exception ends it.
unfoldable pub collect_issues {ℓ} :
    {A : Type ℓ} → (A → Result (List Issue)) → List A → Result (List Issue)
collect_issues f [] = ok []
collect_issues f (x ∷ xs) =
    let rest = collect_issues f xs in
    and_then (f x) (λ issues. map_ok (λ more. issues ++ more) rest)

abbrev pub when : Bool → Issue → List Issue
when true issue = issue ∷ []
when false issue = []
