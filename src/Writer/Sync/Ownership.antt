-- ===== src/Writer/Sync/Ownership.antt =====
-- `sync_managed_artifacts` as a whole: what it leaves alone on every outcome.
use postgres_dbre.Prelude.{
  ◌≡◌, ◌≢◌, refl, ◌∙◌, ◌⊎◌, inl, inr, Bool, some, List, nat_eq, list_eq, Bool-cases, All-contains,
}
use postgres_dbre.Prelude.Dict.{lookup}
use postgres_dbre.Text.{Text}
use postgres_dbre.Os.{FilePath, Fs, file, ok, pure, exists, Result-cases, read_text}
use postgres_dbre.Os.Laws.{open_and_write_elsewhere, bind_keeps}
use postgres_dbre.Writer.{write_text}
use postgres_dbre.Writer.Sync.Removal.{Owned, remove_categories-Prunes}
use postgres_dbre.Writer.Json.{Host}
use postgres_dbre.Writer.Manifest.{Categories, manifest_path, load_manifest, parse_manifest}
use postgres_dbre.Writer.Sync.{
  remove_categories, categories_to_sync, write_manifest, finish, next_categories, sync_from,
  sync_managed_artifacts,
}

write_manifest_elsewhere :
    (host : Host) (categories : Categories) (fs : Fs) (p : FilePath)
    → p ≢ manifest_path
    → lookup p (write_manifest host categories fs).1 ≡ lookup p fs
unfolding write_manifest write_text
write_manifest_elsewhere host categories fs p ne = open_and_write_elsewhere manifest_path _ fs p ne

pub load_manifest_reads : (host : Host) (fs : Fs) → (load_manifest host fs).1 ≡ fs
unfolding load_manifest read_text
load_manifest_reads host fs = elim (Bool-cases (exists manifest_path fs)) [
  | inl e ↦ rw e (
      bind_keeps (λ (gs : Fs). gs ≡ fs) (read_text manifest_path) (parse_manifest host) fs refl
        (λ _. refl))
  | inr e ↦ rw e refl
]

module _ (host : Host) (p : FilePath) (ne : p ≢ manifest_path) where
  pub finish_elsewhere :
      (next : Categories) (removed : List Text) (fs : Fs)
      → lookup p (finish host next removed fs).1 ≡ lookup p fs
  unfolding finish
  finish_elsewhere next removed fs =
      bind_keeps (λ (gs : Fs). lookup p gs ≡ lookup p fs) (write_manifest host next)
        (λ _. pure removed) fs (write_manifest_elsewhere host next fs p ne)
        (λ _. write_manifest_elsewhere host next fs p ne)

module _ (host : Host) (generated : Categories) (selected : List Text) (full_build : Bool) where
  sync_from_elsewhere :
      (previous : Categories) (fs : Fs) (p : FilePath) (content : Text)
      → p ≢ manifest_path
      → lookup p fs ≡ some (file content)
      → (lookup p (sync_from host generated selected full_build previous fs).1
          ≡ some (file content))
        ⊎ Owned host previous generated
            (categories_to_sync previous generated selected full_build)
            p
            content
  unfolding sync_from
  sync_from_elsewhere previous fs p content ne at =
      let to_sync = categories_to_sync previous generated selected full_build in
      let next = next_categories previous generated to_sync full_build in
      let remove = remove_categories host previous generated to_sync in
      let removal =
        remove_categories-Prunes host previous generated to_sync to_sync
          (All-contains to_sync to_sync (λ a h. h)) fs in
      elim (removal.kept p (file content) at) [
        | inl k ↦ inl (
            bind_keeps (λ (hs : Fs). lookup p hs ≡ some (file content)) remove (finish host next) fs
              k (λ removed. finish_elsewhere host p ne next removed (remove fs).1 ∙ k))
        | inr owned ↦ inr owned
      ]

  pub sync-loaded :
      (fs : Fs) (previous : Categories)
      → (load_manifest host fs).0 ≡ ok previous
      → sync_managed_artifacts host generated selected full_build fs
        ≡ sync_from host generated selected full_build previous fs
  unfolding sync_managed_artifacts
  sync-loaded fs previous loads = rw (loads, load_manifest_reads host fs)

  -- Whatever the outcome of `sync_managed_artifacts`, errors included: a file other than the
  -- manifest that stood in the tree still stands there with the same text, or the manifest could
  -- be loaded and the file is owned: recorded under a synchronised category with the digest that
  -- its text has once its newlines are normalised, and no longer generated.
  pub removes-only-Owned :
      (fs : Fs) (p : FilePath) (content : Text)
      → p ≢ manifest_path
      → lookup p fs ≡ some (file content)
      → (lookup p (sync_managed_artifacts host generated selected full_build fs).1
          ≡ some (file content))
        ⊎ ((previous : Categories) × ((load_manifest host fs).0 ≡ ok previous)
            × Owned host previous generated
                (categories_to_sync previous generated selected full_build)
                p
                content)
  unfolding sync_managed_artifacts
  removes-only-Owned fs p content ne at = elim (Result-cases (load_manifest host fs).0) [
    | inl (e, failed) ↦ inl (rw (failed, load_manifest_reads host fs) at)
    | inr (previous, loaded) ↦
        rw (loaded, load_manifest_reads host fs)
          (elim (sync_from_elsewhere previous fs p content ne at) [
            | inl k ↦ inl k
            | inr owned ↦ inr (previous, refl, owned)
          ])
  ]
