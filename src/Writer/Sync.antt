-- ===== src/Writer/Sync.antt =====
-- writer.py: `_file_hash`, `_remove_empty_parents` and `sync_managed_artifacts`.
pub mod Removal
pub mod Runs
pub mod Ownership
pub mod Clearing
pub mod NextManifest
use postgres_dbre.Prelude.{
  ℕ, ◌≡◌, refl, Bool, true, false, ◌||◌, ◌&&◌, not, Option, none, some, List, [], ◌∷◌, ◌++◌,
  is_empty, keep_if, if◌then◌else◌, ◌==◌, contains, nat_eq, list_eq, sorted, to_set,
}
use postgres_dbre.Prelude.Dict.{Dict, lookup, insert, erase, keys}
use postgres_dbre.Text.{Text, newline, text_le}
use postgres_dbre.Os.{
  FilePath, Fs, Node, file, raw, directory, symlink, Result, ok, err, Io, pure, raise, continue,
  ◌>>=◌, ◌>>◌, read_text, unlink, rmdir, modified_content,
}
use postgres_dbre.Writer.{write_text, path_of}
use postgres_dbre.Writer.Json.{Host}
use postgres_dbre.Writer.Manifest.{
  Files, Categories, manifest_path, load_manifest, sort_items, manifest_json,
}

-- `d.get(k, {})`
abbrev pub or_empty : Option Files → Files
or_empty none = []
or_empty (some files) = files

abbrev pub files_of : Text → Categories → Files
files_of category d = or_empty (lookup category d)

-- `except OSError: break`, or the rounds that are left.
abbrev pub or_break : Result (Unit {0}) → Io (Unit {0}) → Io (Unit {0})
or_break (ok _) rounds = rounds
or_break (err _) rounds = pure tt

-- The parents from `path` on up to the root, while each is an empty directory.
unfoldable pub remove_dirs_up : FilePath → Io (Unit {0})
remove_dirs_up [] fs = (ok tt, fs)
remove_dirs_up (name ∷ dir) fs =
    let (outcome, fs') = rmdir (name ∷ dir) fs in or_break outcome (remove_dirs_up dir) fs'

unfoldable pub remove_empty_parents : FilePath → Io (Unit {0})
remove_empty_parents [] = pure tt
remove_empty_parents (_ ∷ dir) = remove_dirs_up dir

-- `old_files[relative]` is there: `relative` is a key of `old_files`.
abbrev same_digest : Option Text → Text → Bool
same_digest none digest = false
same_digest (some recorded) digest = recorded == digest

-- Two rounds of a loop that extends `removed`.
abbrev pub collect : Io (List Text) → Io (List Text) → Io (List Text)
collect m n = m >>= λ removed. n >>= λ more. pure (removed ++ more)

-- `sorted(set(old_files) - set(current_files))`
unfoldable pub stale_paths : Files → Files → List Text
stale_paths old_files current_files =
    sorted text_le
      (keep_if (λ relative. not (contains (keys current_files) relative)) (keys old_files))

-- `categories_to_sync`, in sorted order.
unfoldable pub categories_to_sync : Categories → Categories → List Text → Bool → List Text
categories_to_sync previous generated selected full_build =
    sorted text_le (to_set (if full_build then keys previous ++ keys generated else selected))

-- One round of the loop that computes the new ownership set.
abbrev update_category : Text → Files → Categories → Categories
update_category category [] next = erase category next
update_category category (entry ∷ more) next = insert category (sort_items (entry ∷ more)) next

unfoldable pub update_categories : Categories → List Text → Categories → Categories
update_categories generated [] next = next
update_categories generated (category ∷ rest) next =
    update_categories generated rest (update_category category (files_of category generated) next)

unfoldable pub next_categories : Categories → Categories → List Text → Bool → Categories
next_categories previous generated to_sync full_build =
    update_categories generated to_sync (if full_build then [] else previous)

module _ (host : Host) where
  unfoldable pub file_hash : FilePath → Io Text
  file_hash path = read_text path >>= λ content. pure (host.sha256 content)

  unfoldable pub remove_file : Text → Io (List Text)
  remove_file relative =
      unlink (path_of relative) >> (remove_empty_parents (path_of relative) >> pure (relative ∷ []))

  -- One stale path by what stands there: nothing, a link or a directory, or a file.
  unfoldable pub remove_stale_node : Text → Option Text → Option Node → Io (List Text)
  remove_stale_node relative recorded none = pure []
  remove_stale_node relative recorded (some (symlink _)) = raise (modified_content relative)
  remove_stale_node relative recorded (some directory) = raise (modified_content relative)
  remove_stale_node relative recorded (some (raw _)) =
      file_hash (path_of relative) >>= λ _. raise (modified_content relative)
  remove_stale_node relative recorded (some (file _)) = file_hash (path_of relative) >>= λ digest.
      if same_digest recorded digest
      then remove_file relative
      else raise (modified_content relative)

  unfoldable pub remove_stale : Files → Text → Io (List Text)
  remove_stale old_files relative fs =
      remove_stale_node relative (lookup relative old_files) (lookup (path_of relative) fs) fs

  unfoldable pub remove_all : Files → List Text → Io (List Text)
  remove_all old_files [] = pure []
  remove_all old_files (relative ∷ rest) =
      collect (remove_stale old_files relative) (remove_all old_files rest)

  unfoldable pub remove_categories : Categories → Categories → List Text → Io (List Text)
  remove_categories previous generated [] = pure []
  remove_categories previous generated (category ∷ rest) =
      collect
        (remove_all (files_of category previous)
          (stale_paths (files_of category previous) (files_of category generated)))
        (remove_categories previous generated rest)

  unfoldable pub write_manifest : Categories → Io (Unit {0})
  write_manifest categories =
      write_text manifest_path (host.dumps (manifest_json (sort_items categories)) ++ newline ∷ [])

  -- The function from the computation of the manifest on.
  unfoldable pub finish : Categories → List Text → Io (List Text)
  finish next removed = write_manifest next >>= λ _. pure removed

  -- The function from the loop over the categories on.
  unfoldable pub sync_from : Categories → List Text → Bool → Categories → Io (List Text)
  sync_from generated selected full_build previous =
      let to_sync = categories_to_sync previous generated selected full_build in
      let next = next_categories previous generated to_sync full_build in
      remove_categories previous generated to_sync >>= finish next

  unfoldable pub sync_managed_artifacts : Categories → List Text → Bool → Io (List Text)
  sync_managed_artifacts generated selected full_build =
      load_manifest host >>= sync_from generated selected full_build
