-- ===== src/Writer.antt =====
-- tools/repo_builder/writer.py: its constants and small helpers. The children hold the manifest,
-- the removal of stale files and the writing of workflows, and the proofs about each.
pub mod Json
pub mod Manifest
pub mod Sync
pub mod Workflows
pub mod Runs
use postgres_dbre.Prelude.{
  ℕ, Bool, true, false, ◌||◌, ◌&&◌, not, Option, none, some, List, [], ◌∷◌, ◌++◌, reverse, keep_if,
  is_empty, if◌then◌else◌, nat_beq, ◌==◌, nat_eq, list_eq, ◌≡◌, refl,
}
use postgres_dbre.Text.{Text, codes, starts_with, split_on, join}
use postgres_dbre.Os.{FilePath, Io, ◌>>=◌, ◌>>◌, makedirs, open_and_write}

abbrev pub manifest_filename : Text
manifest_filename = codes ".repo-builder-manifest.json"

abbrev pub manifest_version : ℕ
manifest_version = 1

-- `os.path.dirname`
abbrev pub parent : FilePath → FilePath
parent [] = []
parent (_ ∷ dir) = dir

unfoldable pub write_text : FilePath → Text → Io (Unit {0})
unfolding makedirs open_and_write
write_text path content = makedirs (parent path) >> open_and_write path content

-- The names that `Path(s)` has below its root: empty ones and `.` are dropped.
abbrev is_name : Text → Bool
is_name s = not (is_empty s || s == codes ".")

unfoldable pub names : Text → List Text
unfolding split_on
names s = keep_if is_name (split_on b'/' s)

unfoldable pub is_absolute : Text → Bool
unfolding starts_with
is_absolute s = starts_with s (codes "/")

-- `Path(s).parts`
abbrev slashes : Text → Text
slashes s =
    if starts_with s (codes "//") && not (starts_with s (codes "///"))
    then codes "//"
    else codes "/"

unfoldable pub parts : Text → List Text
unfolding names is_absolute
parts s = if is_absolute s then slashes s ∷ names s else names s

-- `root_path / Path(relative)` for a path that is not absolute.
unfoldable pub path_of : Text → FilePath
unfolding names
path_of relative = reverse (names relative)

-- `_relative_path(root, path)`
unfoldable pub relative_path : FilePath → Text
unfolding join
relative_path path = join (codes "/") (reverse path)

parts_test : parts (codes "a//./b/") ≡ codes "a" ∷ codes "b" ∷ []
unfolding parts starts_with list_eq nat_eq
parts_test = refl
