-- ===== src/Writer/Sync/Removal.antt =====
-- What `sync_managed_artifacts` may remove, on every outcome: nothing but files that the manifest
-- records with the digest that they still have, and directories.
use postgres_dbre.Prelude.{
  ◌≡◌, refl, inl, inr, true, false, Option, none, some, List, [], ◌∷◌, arith, contains, nat_eq,
  list_eq, Bool-cases, All, All-sorted, All-map, All-keep_if,
}
use postgres_dbre.Prelude.Dict.{lookup, erase, keys}
use postgres_dbre.Text.{Text, text_le}
use postgres_dbre.Os.{
  FilePath, Fs, Node, file, raw, directory, symlink, Result, ok, err, Io, continue,
  universal_newlines, ◌>>=◌, unlink, rmdir, read_text, decode_error,
}
use postgres_dbre.Os.Laws.{Prunes, Prunes-refl, Prunes-trans, Prunes-erase, rmdir-Prunes}
use postgres_dbre.Writer.{path_of}
use postgres_dbre.Writer.Json.{Host}
use postgres_dbre.Writer.Manifest.{Files, Categories}
use postgres_dbre.Writer.Sync.{
  collect, files_of, or_break, remove_dirs_up, remove_empty_parents, same_digest, file_hash,
  remove_file, remove_stale_node, remove_stale, remove_all, stale_paths, remove_categories,
}

module _ {Removable : FilePath → Text → Type 0} where
  or_break-Prunes :
      (r : Result (Unit {0})) (m : Io (Unit {0})) (fs : Fs)
      → ((gs : Fs) → Prunes Removable gs (m gs).1)
      → Prunes Removable fs (or_break r m fs).1
  or_break-Prunes (ok _) m fs h = h fs
  or_break-Prunes (err _) m fs h = Prunes-refl fs

  remove_dirs_up-Prunes : (p : FilePath) (fs : Fs) → Prunes Removable fs (remove_dirs_up p fs).1
  unfolding remove_dirs_up
  remove_dirs_up-Prunes [] fs = Prunes-refl fs
  remove_dirs_up-Prunes (name ∷ dir) fs = Prunes-trans (rmdir-Prunes (name ∷ dir) fs) (
      or_break-Prunes (rmdir (name ∷ dir) fs).0 (remove_dirs_up dir) (rmdir (name ∷ dir) fs).1
        (remove_dirs_up-Prunes dir))

  pub remove_empty_parents-Prunes :
      (p : FilePath) (fs : Fs) → Prunes Removable fs (remove_empty_parents p fs).1
  unfolding remove_empty_parents
  remove_empty_parents-Prunes [] fs = Prunes-refl fs
  remove_empty_parents-Prunes (_ ∷ dir) fs = remove_dirs_up-Prunes dir fs

  -- A sequence of two actions prunes if each does, from the tree where it starts.
  Prunes-continue :
      {A B : Type 0} (r : Result A) (f : A → Io B) (fs : Fs)
      → ((a : A) → Prunes Removable fs (f a fs).1)
      → Prunes Removable fs (continue r fs f).1
  Prunes-continue (ok a) f fs h = h a
  Prunes-continue (err e) f fs h = Prunes-refl fs

  Prunes-bind :
      {A B : Type 0} (m : Io A) (f : A → Io B) (fs : Fs)
      → Prunes Removable fs (m fs).1
      → ((a : A) (gs : Fs) → Prunes Removable gs (f a gs).1)
      → Prunes Removable fs ((m >>= f) fs).1
  Prunes-bind m f fs pm pf =
      Prunes-trans pm (Prunes-continue (m fs).0 f (m fs).1 (λ a. pf a (m fs).1))

  Prunes-collect :
      (m n : Io (List Text)) (fs : Fs)
      → Prunes Removable fs (m fs).1
      → ((gs : Fs) → Prunes Removable gs (n gs).1)
      → Prunes Removable fs (collect m n fs).1
  Prunes-collect m n fs pm pn =
      Prunes-bind m _ fs pm (λ removed gs. Prunes-bind n _ gs (pn gs) (λ more hs. Prunes-refl hs))

pub unlink_file :
    (path : FilePath) (fs : Fs) (content : Text)
    → lookup path fs ≡ some (file content)
    → unlink path fs ≡ (ok tt, erase path fs)
unfolding unlink
unlink_file path fs content at = rw at

pub file_hash_file :
    (host : Host) (path : FilePath) (fs : Fs) (content : Text)
    → lookup path fs ≡ some (file content)
    → file_hash host path fs ≡ (ok (host.sha256 (universal_newlines content)), fs)
unfolding file_hash read_text
file_hash_file host path fs content at = rw at

pub file_hash_raw :
    (host : Host) (path : FilePath) (fs : Fs) (content : Text)
    → lookup path fs ≡ some (raw content)
    → file_hash host path fs ≡ (err (decode_error path), fs)
unfolding file_hash read_text
file_hash_raw host path fs content at = rw at

pub same_digest-some :
    (recorded : Option Text) (digest : Text)
    → same_digest recorded digest ≡ true
    → recorded ≡ some digest
same_digest-some recorded digest h = ground arith

-- The digest recorded for the path is that of the file's text, its newlines normalised.
abbrev pub IsRecorded : Host → Files → Text → FilePath → Text → Type 0
IsRecorded host old_files relative p content =
    (p ≡ path_of relative)
    × (lookup relative old_files ≡ some (host.sha256 (universal_newlines content)))

abbrev pub Allows : Host → (FilePath → Text → Type 0) → Files → Text → Type 0
Allows host Removable old_files relative =
    (p : FilePath) (content : Text)
    → IsRecorded host old_files relative p content
    → Removable p content

module _ (host : Host) (Removable : FilePath → Text → Type 0) (old_files : Files)
    (relative : Text) where
  module _ (owned : Allows host Removable old_files relative) where
    remove_file-Prunes :
        (fs : Fs) (content : Text)
        → lookup (path_of relative) fs ≡ some (file content)
        → Removable (path_of relative) content
        → Prunes Removable fs (remove_file host relative fs).1
    unfolding remove_file
    remove_file-Prunes fs content at may = rw (unlink_file (path_of relative) fs content at) (
        Prunes-trans (Prunes-erase fs (path_of relative) (file content) at may) (
          Prunes-bind (remove_empty_parents (path_of relative)) _ _
            (remove_empty_parents-Prunes (path_of relative) _) (λ _ gs. Prunes-refl gs)))

    remove_stale_node-Prunes :
        (fs : Fs) (n : Option Node)
        → lookup (path_of relative) fs ≡ n
        → Prunes Removable fs (remove_stale_node host relative (lookup relative old_files) n fs).1
    unfolding remove_stale_node
    remove_stale_node-Prunes fs none at = Prunes-refl fs
    remove_stale_node-Prunes fs (some (symlink opens)) at = Prunes-refl fs
    remove_stale_node-Prunes fs (some directory) at = Prunes-refl fs
    remove_stale_node-Prunes fs (some (raw t)) at =
        rw (file_hash_raw host (path_of relative) fs t at) (Prunes-refl fs)
    remove_stale_node-Prunes fs (some (file content)) at =
        rw (file_hash_file host (path_of relative) fs content at)
          (elim (Bool-cases
            (same_digest (lookup relative old_files) (host.sha256 (universal_newlines content)))) [
              | inl e ↦ rw e (
                  remove_file-Prunes fs content at
                    (owned (path_of relative) content (refl, same_digest-some _ _ e)))
              | inr e ↦ rw e (Prunes-refl fs)
            ])

    pub remove_stale-Prunes :
        (fs : Fs) → Prunes Removable fs (remove_stale host old_files relative fs).1
    unfolding remove_stale
    remove_stale-Prunes fs = remove_stale_node-Prunes fs (lookup (path_of relative) fs) refl

pub remove_all-Prunes :
    (host : Host) (Removable : FilePath → Text → Type 0) (old_files : Files) (paths : List Text)
    → All (Allows host Removable old_files) paths
    → (fs : Fs) → Prunes Removable fs (remove_all host old_files paths fs).1
unfolding remove_all
remove_all-Prunes host Removable old_files [] h fs = Prunes-refl fs
remove_all-Prunes host Removable old_files (relative ∷ rest) (owned, h) fs =
    Prunes-collect (remove_stale host old_files relative) (remove_all host old_files rest) fs
      (remove_stale-Prunes host Removable old_files relative owned fs)
      (remove_all-Prunes host Removable old_files rest h)

stale_paths-stale :
    (old_files current_files : Files)
    → All
        (λ relative. contains (keys current_files) relative ≡ false)
        (stale_paths old_files current_files)
unfolding stale_paths
stale_paths-stale old_files current_files =
    All-sorted text_le _ _ (All-map (λ relative h. ground arith) _ (All-keep_if _ (keys old_files)))

-- The file is recorded by the manifest, under a category that is synchronised, with the digest
-- that its text has once its newlines are normalised, and the generator no longer writes it.
pub record Owned (host : Host) (previous generated : Categories) (to_sync : List Text)
    (p : FilePath) (content : Text) : Type 0 where
  pub category : Text
  pub relative : Text
  pub synced : contains to_sync category ≡ true
  pub stale : contains (keys (files_of category generated)) relative ≡ false
  pub located : p ≡ path_of relative
  pub recorded :
      lookup relative (files_of category previous) ≡ some (host.sha256 (universal_newlines content))

module _ (host : Host) (previous generated : Categories) (to_sync : List Text) where
  category-Allows :
      (category : Text)
      → contains to_sync category ≡ true
      → All
          (Allows host (Owned host previous generated to_sync) (files_of category previous))
          (stale_paths (files_of category previous) (files_of category generated))
  category-Allows category synced =
      All-map
        (λ relative stale p content (located, recorded). record {
          category = category;
          relative = relative;
          synced = synced;
          stale = stale;
          located = located;
          recorded = recorded;
        })
        _ (stale_paths-stale (files_of category previous) (files_of category generated))

  pub remove_categories-Prunes :
      (categories : List Text)
      → All (λ category. contains to_sync category ≡ true) categories
      → (fs : Fs)
      → Prunes
          (Owned host previous generated to_sync)
          fs
          (remove_categories host previous generated categories fs).1
  unfolding remove_categories
  remove_categories-Prunes [] h fs = Prunes-refl fs
  remove_categories-Prunes (category ∷ rest) (synced, h) fs =
      Prunes-collect
        (remove_all host (files_of category previous)
          (stale_paths (files_of category previous) (files_of category generated)))
        (remove_categories host previous generated rest) fs
        (remove_all-Prunes host _ _ _ (category-Allows category synced) fs)
        (remove_categories-Prunes rest h)
