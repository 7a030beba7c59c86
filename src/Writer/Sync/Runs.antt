-- ===== src/Writer/Sync/Runs.antt =====
-- `sync_managed_artifacts` as a run of the file tree's machine, which writes at the manifest's place.
use mathlib.Core.Path.{subst}
use postgres_dbre.Prelude.{
  ◌≡◌, refl, sym, inl, inr, Bool, Bool-cases, Option, none, some, List, [], ◌∷◌, nat_eq, list_eq,
}
use postgres_dbre.Prelude.Dict.{lookup}
use postgres_dbre.Text.{Text}
use postgres_dbre.Os.{
  FilePath, Fs, Node, file, raw, directory, symlink, Result, ok, err, Io, pure, universal_newlines,
  rmdir, unlink,
}
use postgres_dbre.Os.Steps.{Reach, here, Reach-trans}
use postgres_dbre.Os.Runs.{Runs, Runs-continue, Runs-bind, unlink-Reach, rmdir-Runs}
use postgres_dbre.Writer.{path_of}
use postgres_dbre.Writer.Json.{Host}
use postgres_dbre.Writer.Runs.{write_text-Runs}
use postgres_dbre.Writer.Manifest.{Files, Categories, manifest_path, load_manifest}
use postgres_dbre.Writer.Sync.{
  or_break, remove_dirs_up, remove_empty_parents, same_digest, collect, remove_file,
  remove_stale_node, remove_stale, remove_all, remove_categories, write_manifest, finish, sync_from,
  sync_managed_artifacts, files_of, categories_to_sync, next_categories,
}
use postgres_dbre.Writer.Sync.Removal.{file_hash_file, file_hash_raw}
use postgres_dbre.Writer.Sync.Ownership.{load_manifest_reads}

module _ (Written : FilePath → Text → Type 0) where
  or_break-Reach :
      (r : Result (Unit {0})) (m : Io (Unit {0})) (fs : Fs)
      → Runs Written m
      → Reach Written fs (or_break r m fs).1
  or_break-Reach (ok _) m fs h = h fs
  or_break-Reach (err _) m fs h = here

  remove_dirs_up-Runs : (p : FilePath) → Runs Written (remove_dirs_up p)
  unfolding remove_dirs_up
  remove_dirs_up-Runs [] fs = here
  remove_dirs_up-Runs (name ∷ dir) fs = Reach-trans (rmdir-Runs Written (name ∷ dir) fs) (
      or_break-Reach (rmdir (name ∷ dir) fs).0 (remove_dirs_up dir) (rmdir (name ∷ dir) fs).1
        (remove_dirs_up-Runs dir))

  remove_empty_parents-Runs : (p : FilePath) → Runs Written (remove_empty_parents p)
  unfolding remove_empty_parents
  remove_empty_parents-Runs [] fs = here
  remove_empty_parents-Runs (_ ∷ dir) fs = remove_dirs_up-Runs dir fs

  collect-Runs :
      (m n : Io (List Text)) → Runs Written m → Runs Written n → Runs Written (collect m n)
  collect-Runs m n rm rn =
      Runs-bind Written m _ rm (λ removed. Runs-bind Written n _ rn (λ more fs. here))

  module _ (host : Host) where
    remove_file-Reach :
        (relative content : Text) (fs : Fs)
        → lookup (path_of relative) fs ≡ some (file content)
        → Reach Written fs (remove_file host relative fs).1
    unfolding remove_file
    remove_file-Reach relative content fs at =
        let removed = unlink-Reach Written (path_of relative) content fs at in
        let parents = λ (_ : Unit {0}).
          Runs-bind Written (remove_empty_parents (path_of relative)) (λ _. pure (relative ∷ []))
            (remove_empty_parents-Runs (path_of relative)) (λ _ fs. here) in
        Reach-trans removed (
          Runs-continue Written (unlink (path_of relative) fs).0 _ parents
            (unlink (path_of relative) fs).1)

    remove_stale_node-Reach :
        (relative : Text) (recorded : Option Text) (n : Option Node) (fs : Fs)
        → lookup (path_of relative) fs ≡ n
        → Reach Written fs (remove_stale_node host relative recorded n fs).1
    unfolding remove_stale_node
    remove_stale_node-Reach relative recorded none fs at = here
    remove_stale_node-Reach relative recorded (some (symlink opens)) fs at = here
    remove_stale_node-Reach relative recorded (some directory) fs at = here
    remove_stale_node-Reach relative recorded (some (raw t)) fs at =
        rw (file_hash_raw host (path_of relative) fs t at) here
    remove_stale_node-Reach relative recorded (some (file content)) fs at =
        rw (file_hash_file host (path_of relative) fs content at)
          (elim (Bool-cases (same_digest recorded (host.sha256 (universal_newlines content)))) [
            | inl e ↦ rw e (remove_file-Reach relative content fs at)
            | inr e ↦ rw e here
          ])

    remove_stale-Runs :
        (old_files : Files) (relative : Text) → Runs Written (remove_stale host old_files relative)
    unfolding remove_stale
    remove_stale-Runs old_files relative fs =
        remove_stale_node-Reach relative (lookup relative old_files) (lookup (path_of relative) fs)
          fs refl

    remove_all-Runs :
        (old_files : Files) (paths : List Text) → Runs Written (remove_all host old_files paths)
    unfolding remove_all
    remove_all-Runs old_files [] fs = here
    remove_all-Runs old_files (relative ∷ rest) fs =
        collect-Runs (remove_stale host old_files relative) (remove_all host old_files rest)
          (remove_stale-Runs old_files relative) (remove_all-Runs old_files rest) fs

    remove_categories-Runs :
        (previous generated : Categories) (categories : List Text)
        → Runs Written (remove_categories host previous generated categories)
    unfolding remove_categories
    remove_categories-Runs previous generated [] fs = here
    remove_categories-Runs previous generated (category ∷ rest) fs =
        collect-Runs (remove_all host (files_of category previous) _)
          (remove_categories host previous generated rest) (remove_all-Runs _ _)
          (remove_categories-Runs previous generated rest) fs

    module _ (allowed : (content : Text) → Written manifest_path content) where
      finish-Runs :
          (next : Categories) (removed : List Text) → Runs Written (finish host next removed)
      unfolding finish write_manifest
      finish-Runs next removed =
          Runs-bind Written (write_manifest host next) _
            (write_text-Runs Written manifest_path _ (allowed _)) (λ _ fs. here)

      sync_from-Runs :
          (generated : Categories) (selected : List Text) (full_build : Bool)
          (previous : Categories)
          → Runs Written (sync_from host generated selected full_build previous)
      unfolding sync_from
      sync_from-Runs generated selected full_build previous =
          let to_sync = categories_to_sync previous generated selected full_build in
          let next = next_categories previous generated to_sync full_build in
          Runs-bind Written (remove_categories host previous generated to_sync) (finish host next)
            (remove_categories-Runs previous generated to_sync) (finish-Runs next)

      load_manifest-Runs : Runs Written (load_manifest host)
      load_manifest-Runs fs = subst (Reach Written fs) (sym (load_manifest_reads host fs)) here

      pub sync_managed_artifacts-Runs :
          (generated : Categories) (selected : List Text) (full_build : Bool)
          → Runs Written (sync_managed_artifacts host generated selected full_build)
      unfolding sync_managed_artifacts
      sync_managed_artifacts-Runs generated selected full_build =
          Runs-bind Written (load_manifest host) (sync_from host generated selected full_build)
            load_manifest-Runs (sync_from-Runs generated selected full_build)
