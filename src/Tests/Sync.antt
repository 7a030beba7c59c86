-- ===== src/Tests/Sync.antt =====
-- A tree with two generated files of which one is no longer generated.
use postgres_dbre.Prelude.{
  ◌≡◌, ◌≢◌, ◌⊎◌, refl, ap, true, false, none, some, [], ◌∷◌, arith, length, contains, ◌==◌, nat_eq,
  list_eq, sorted, to_set, if◌then◌else◌,
}
use postgres_dbre.Prelude.Dict.{lookup, insert, erase, keys}
use postgres_dbre.Text.{Text, codes, text_le, split_on, starts_with, after_prefix}
use postgres_dbre.Os.{
  FilePath, Fs, file, directory, ok, err, exists, read_text, universal_newlines, makedirs, unlink,
  rmdir, open_and_write, modified_content,
}
use postgres_dbre.Writer.{write_text, path_of, names, parts, is_absolute}
use postgres_dbre.Writer.Json.{Json, natural, str, obj, end, field, Host, equals_number}
use postgres_dbre.Writer.Manifest.{
  Categories, manifest_path, load_manifest, check_manifest, check_categories, check_files,
  is_unsafe, sort_items, manifest_json,
}
use postgres_dbre.Writer.Manifest.Safety.{AreSafe, load_manifest-AreSafe}
use postgres_dbre.Writer.Sync.{
  files_of, remove_dirs_up, remove_empty_parents, file_hash, remove_file, remove_stale_node,
  remove_stale, remove_all, stale_paths, remove_categories, categories_to_sync, update_categories,
  next_categories, write_manifest, finish, sync_from, sync_managed_artifacts,
}
use postgres_dbre.Writer.Sync.Removal.{Owned}
use postgres_dbre.Writer.Sync.Ownership.{removes-only-Owned}
use postgres_dbre.Writer.Sync.Clearing.{success-leaves_no-stale}
use postgres_dbre.Writer.Sync.NextManifest.{recorded, next_categories_full, next_categories_partial}

-- 64 hexadecimal digits.
abbrev digest : Text
digest = codes "aaaaaaaaaaaaaaaabbbbbbbbbbbbbbbbccccccccccccccccdddddddddddddddd"

abbrev other_digest : Text
other_digest = codes "0000000000000000000000000000000000000000000000000000000000000000"

abbrev stored : Json
stored = obj (
    field (codes "version") (natural 1) (
      field (codes "categories")
        (obj (field (codes "p") (obj (field (codes "p/w/1.sql") (str digest) end)) end)) end))

-- A digest that tells apart the one text of the test, and a codec that knows one manifest.
abbrev host : Host
host = record {
  sha256 = λ s. if s == codes "a\n" then digest else other_digest;
  loads = λ s. some stored;
  dumps = λ value. codes "{}";
}

abbrev previous : Categories
previous = (codes "p", (codes "p/w/1.sql", digest) ∷ []) ∷ []

abbrev old_file : FilePath
old_file = codes "1.sql" ∷ codes "w" ∷ codes "p" ∷ []

abbrev user_file : FilePath
user_file = codes "notes.txt" ∷ codes "p" ∷ []

abbrev tree : Text → Fs
tree content =
    (manifest_path, file (codes "{}"))
    ∷ (codes "p" ∷ [], directory)
    ∷ (codes "w" ∷ codes "p" ∷ [], directory)
    ∷ (old_file, file content)
    ∷ (user_file, file (codes "mine"))
    ∷ []

-- Everything that a run calls.
run : Text → Fs
unfolding sync_managed_artifacts sync_from load_manifest exists read_text universal_newlines
    check_manifest check_categories check_files is_unsafe equals_number parts names path_of
    is_absolute split_on starts_with after_prefix lookup insert erase keys list_eq nat_eq
    categories_to_sync sorted to_set text_le stale_paths remove_categories remove_all remove_stale
    remove_stale_node file_hash remove_file unlink remove_empty_parents remove_dirs_up rmdir finish
    write_manifest write_text makedirs open_and_write sort_items manifest_json next_categories
    update_categories
run content = (sync_managed_artifacts host [] [] true (tree content)).1

-- The stale file and its directory go, also with Windows line ends; the user's file stays.
removes_stale_test :
    run (codes "a\r\n")
    ≡ (manifest_path, file (codes "{}\n"))
      ∷ (codes "p" ∷ [], directory)
      ∷ (user_file, file (codes "mine"))
      ∷ []
unfolding run
removes_stale_test = refl

-- A modified file stops the run.
refuses_modified_test :
    sync_managed_artifacts host [] [] true (tree (codes "edited"))
    ≡ (err (modified_content (codes "p/w/1.sql")), tree (codes "edited"))
unfolding run
refuses_modified_test = refl

load_test : (load_manifest host (tree (codes "a\n"))).0 ≡ ok previous
unfolding run
load_test = refl

user_not-manifest : user_file ≢ manifest_path
user_not-manifest e = absurd (omega (arith, ap length e))

removes-only-Owned_example :
    (lookup user_file (sync_managed_artifacts host [] [] true (tree (codes "a\n"))).1
      ≡ some (file (codes "mine")))
    ⊎ ((found : Categories) × ((load_manifest host (tree (codes "a\n"))).0 ≡ ok found)
        × Owned host found [] (categories_to_sync found [] [] true) user_file (codes "mine"))
unfolding lookup list_eq nat_eq
removes-only-Owned_example =
    removes-only-Owned host [] [] true (tree (codes "a\n")) user_file (codes "mine")
      user_not-manifest refl

success-leaves_no-stale_example :
    lookup
      (path_of (codes "p/w/1.sql"))
      (sync_managed_artifacts host [] [] true (tree (codes "a\n"))).1
    ≡ none
unfolding run
success-leaves_no-stale_example =
    success-leaves_no-stale host [] [] true (tree (codes "a\n")) previous (codes "p")
      (codes "p/w/1.sql") digest load_test refl refl refl (λ e. absurd (omega (arith, ap length e)))
      refl

load_manifest-AreSafe_example : AreSafe previous
load_manifest-AreSafe_example = load_manifest-AreSafe host (tree (codes "a\n")) previous load_test

next_categories_full_example :
    lookup (codes "p") (next_categories previous [] (categories_to_sync previous [] [] true) true)
    ≡ recorded (files_of (codes "p") [])
next_categories_full_example = next_categories_full previous [] [] (codes "p")

next_categories_partial_example :
    lookup (codes "p") (next_categories previous [] (categories_to_sync previous [] [] false) false)
    ≡ (if contains [] (codes "p")
        then recorded (files_of (codes "p") [])
        else lookup (codes "p") previous)
next_categories_partial_example = next_categories_partial previous [] [] (codes "p")
