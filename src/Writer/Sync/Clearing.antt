-- ===== src/Writer/Sync/Clearing.antt =====
-- `sync_managed_artifacts` when it succeeds: no stale path is left.
use mathlib.Core.Path.{subst}
use postgres_dbre.Prelude.{
  ◌≡◌, ◌≢◌, refl, sym, ap, ◌∙◌, inl, inr, Bool, true, false, Option, none, some, List, [], ◌∷◌,
  ◌++◌, arith, contains, nat_eq, list_eq, Bool-cases, All, All-map, All-at, All-contains,
  contains-sorted, contains-keep_if,
}
use postgres_dbre.Prelude.Dict.{lookup, erase, keys, contains-keys-some, lookup-erase}
use postgres_dbre.Text.{Text}
use postgres_dbre.Os.{
  FilePath, Fs, Node, file, raw, directory, symlink, ok, Io, pure, ◌>>=◌, universal_newlines,
}
use postgres_dbre.Os.Laws.{Prunes, bind-ok, bind_keeps}
use postgres_dbre.Writer.{path_of}
use postgres_dbre.Writer.Json.{Host}
use postgres_dbre.Writer.Manifest.{Files, Categories, manifest_path, load_manifest}
use postgres_dbre.Writer.Sync.{
  files_of, collect, remove_empty_parents, same_digest, remove_file, remove_stale_node,
  remove_stale, remove_all, stale_paths, remove_categories, categories_to_sync, next_categories,
  finish, sync_from, sync_managed_artifacts,
}
use postgres_dbre.Writer.Sync.Removal.{
  Allows, unlink_file, file_hash_file, file_hash_raw, remove_empty_parents-Prunes,
  remove_all-Prunes, remove_categories-Prunes,
}
use postgres_dbre.Writer.Sync.Ownership.{sync-loaded, finish_elsewhere}

-- Every removal is allowed: what is asked here is only that nothing is added.
abbrev Any : FilePath → Text → Type 0
Any p content = Unit

abbrev AllAbsent : List Text → Fs → Type 0
AllAbsent paths fs = All (λ relative. lookup (path_of relative) fs ≡ none) paths

module _ (host : Host) where
  remove_file-absent :
      (relative : Text) (fs : Fs) (content : Text)
      → lookup (path_of relative) fs ≡ some (file content)
      → lookup (path_of relative) (remove_file host relative fs).1 ≡ none
  unfolding remove_file
  remove_file-absent relative fs content at = rw (unlink_file (path_of relative) fs content at) (
      bind_keeps (λ (gs : Fs). lookup (path_of relative) gs ≡ none)
        (remove_empty_parents (path_of relative)) (λ _. pure (relative ∷ []))
        (erase (path_of relative) fs) (gone) (λ _. gone))
    where
      gone :
          lookup
            (path_of relative)
            (remove_empty_parents (path_of relative) (erase (path_of relative) fs)).1
          ≡ none
      gone =
          (remove_empty_parents-Prunes {Removable = Any} (path_of relative)
              (erase (path_of relative) fs)).absent
            (path_of relative) (rw lookup-erase (ground arith))

  -- A stale path that was handled without an error is absent.
  remove_stale_node-absent :
      (relative : Text) (recorded : Option Text) (fs : Fs) (n : Option Node) {removed : List Text}
      → lookup (path_of relative) fs ≡ n
      → (remove_stale_node host relative recorded n fs).0 ≡ ok removed
      → lookup (path_of relative) (remove_stale_node host relative recorded n fs).1 ≡ none
  unfolding remove_stale_node
  remove_stale_node-absent relative recorded fs none at h = at
  remove_stale_node-absent relative recorded fs (some (symlink opens)) at h = cc
  remove_stale_node-absent relative recorded fs (some directory) at h = cc
  remove_stale_node-absent relative recorded fs (some (raw t)) at h =
      cc (rw (file_hash_raw host (path_of relative) fs t at) at h)
  remove_stale_node-absent relative recorded fs (some (file content)) at h =
      elim (Bool-cases (same_digest recorded (host.sha256 (universal_newlines content)))) [
        | inl e ↦
            rw (file_hash_file host (path_of relative) fs content at, e)
              (remove_file-absent relative fs content at)
        | inr e ↦ cc (rw (file_hash_file host (path_of relative) fs content at, e) at h)
      ]

  remove_stale-absent :
      (old_files : Files) (relative : Text) (fs : Fs) {removed : List Text}
      → (remove_stale host old_files relative fs).0 ≡ ok removed
      → lookup (path_of relative) (remove_stale host old_files relative fs).1 ≡ none
  unfolding remove_stale
  remove_stale-absent old_files relative fs h =
      remove_stale_node-absent relative (lookup relative old_files) fs
        (lookup (path_of relative) fs) refl h

-- A loop that succeeds: each of its parts does, the second from the tree that the first leaves.
collect-ok :
    (m n : Io (List Text)) (fs : Fs) {removed : List Text}
    → (collect m n fs).0 ≡ ok removed
    → (a b : List Text) × ((m fs).0 ≡ ok a)
      × ((n (m fs).1).0 ≡ ok b)
      × ((collect m n fs).1 ≡ (n (m fs).1).1)
collect-ok m n fs h =
    let rest = λ (a : List Text). n >>= λ b. pure (a ++ b) in
    let (a, first, whole) = bind-ok m rest fs h in
    let (b, second, tail) = bind-ok n (λ b. pure (a ++ b)) (m fs).1 (rw whole at h) in
    (a, b, first, second, ap (λ r. r.1) whole ∙ ap (λ r. r.1) tail)

All-allowed :
    (host : Host) (old_files : Files) (paths : List Text) → All (Allows host Any old_files) paths
All-allowed host old_files [] = tt
All-allowed host old_files (_ ∷ rest) = (λ p content h. tt, All-allowed host old_files rest)

module _ (host : Host) where
  remove_all-absent :
      (old_files : Files) (paths : List Text) (fs : Fs) {removed : List Text}
      → (remove_all host old_files paths fs).0 ≡ ok removed
      → AllAbsent paths (remove_all host old_files paths fs).1
  unfolding remove_all
  remove_all-absent old_files [] fs h = tt
  remove_all-absent old_files (relative ∷ rest) fs h =
      let (a, b, first, second, whole) =
        collect-ok (remove_stale host old_files relative) (remove_all host old_files rest) fs h in
      subst (AllAbsent (relative ∷ rest)) (sym whole) (
        (remove_all-Prunes host Any old_files rest (All-allowed host old_files rest) _).absent
            (path_of relative) (remove_stale-absent host old_files relative fs first),
        remove_all-absent old_files rest _ second,
      )

-- What is absent stays absent where nothing is added.
AllAbsent-Prunes :
    {Removable : FilePath → Text → Type 0} {fs gs : Fs}
    → Prunes Removable fs gs
    → (paths : List Text) → AllAbsent paths fs
    → AllAbsent paths gs
AllAbsent-Prunes prunes = All-map (λ relative h. prunes.absent (path_of relative) h)

abbrev stale_of : Categories → Categories → Text → List Text
stale_of previous generated category =
    stale_paths (files_of category previous) (files_of category generated)

module _ (host : Host) (previous generated : Categories) where
  remove_categories-absent :
      (categories : List Text) (fs : Fs) {removed : List Text}
      → (remove_categories host previous generated categories fs).0 ≡ ok removed
      → All
          (λ category.
            AllAbsent
              (stale_of previous generated category)
              (remove_categories host previous generated categories fs).1)
          categories
  unfolding remove_categories
  remove_categories-absent [] fs h = tt
  remove_categories-absent (category ∷ rest) fs h =
      let first_part =
        remove_all host (files_of category previous) (stale_of previous generated category) in
      let (a, b, first, second, whole) =
        collect-ok first_part (remove_categories host previous generated rest) fs h in
      subst (λ (gs : Fs). All (λ c. AllAbsent (stale_of previous generated c) gs) (category ∷ rest))
        (sym whole)
        (
          AllAbsent-Prunes
              (remove_categories-Prunes host previous generated rest rest
                (All-contains rest rest (λ c m. m)) _)
              (stale_of previous generated category)
              (remove_all-absent host (files_of category previous)
                (stale_of previous generated category) fs first),
          remove_categories-absent rest _ second,
        )

contains-stale_paths :
    (old_files current_files : Files) (relative digest : Text)
    → lookup relative old_files ≡ some digest
    → contains (keys current_files) relative ≡ false
    → contains (stale_paths old_files current_files) relative ≡ true
unfolding stale_paths
contains-stale_paths old_files current_files relative digest old stale =
    rw (contains-sorted, contains-keep_if, contains-keys-some old_files relative digest old, stale)

module _ (host : Host) (generated : Categories) (selected : List Text) (full_build : Bool) where
  sync_from-absent :
      (previous : Categories) (fs : Fs) (category relative : Text) {removed : List Text}
      → contains (categories_to_sync previous generated selected full_build) category ≡ true
      → contains (stale_of previous generated category) relative ≡ true
      → path_of relative ≢ manifest_path
      → (sync_from host generated selected full_build previous fs).0 ≡ ok removed
      → lookup (path_of relative) (sync_from host generated selected full_build previous fs).1
        ≡ none
  unfolding sync_from
  sync_from-absent previous fs category relative synced stale ne h =
      let to_sync = categories_to_sync previous generated selected full_build in
      let next = next_categories previous generated to_sync full_build in
      let remove = remove_categories host previous generated to_sync in
      let (a, first, whole) = bind-ok remove (finish host next) fs h in
      let cleared = remove_categories-absent host previous generated to_sync fs first in
      let all_of = λ (c : Text). AllAbsent (stale_of previous generated c) (remove fs).1 in
      let absent_at = λ (r : Text). lookup (path_of r) (remove fs).1 ≡ none in
      let in_category = All-at all_of to_sync category cleared synced in
      rw (whole, finish_elsewhere host (path_of relative) ne next a (remove fs).1)
        (All-at absent_at (stale_of previous generated category) relative in_category stale)

  -- After `sync_managed_artifacts` has returned, no file is left that the loaded manifest records
  -- for a synchronised category and that is no longer generated; the manifest's own path aside.
  pub success-leaves_no-stale :
      (fs : Fs) (previous : Categories) (category relative digest : Text) {removed : List Text}
      → (load_manifest host fs).0 ≡ ok previous
      → contains (categories_to_sync previous generated selected full_build) category ≡ true
      → lookup relative (files_of category previous) ≡ some digest
      → contains (keys (files_of category generated)) relative ≡ false
      → path_of relative ≢ manifest_path
      → (sync_managed_artifacts host generated selected full_build fs).0 ≡ ok removed
      → lookup (path_of relative) (sync_managed_artifacts host generated selected full_build fs).1
        ≡ none
  success-leaves_no-stale fs previous category relative digest loads synced old stale ne h =
      let at_from = sync-loaded host generated selected full_build fs previous loads in
      rw at_from (
        sync_from-absent previous fs category relative synced
          (contains-stale_paths (files_of category previous) (files_of category generated) relative
            digest old stale)
          ne (rw at_from at h))
