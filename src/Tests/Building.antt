-- ===== src/Tests/Building.antt =====
-- The theorems about the build at one workflow of one module.
use postgres_dbre.Prelude.{
  ◌≡◌, refl, true, Option, some, List, [], ◌∷◌, contains, if◌then◌else◌, ◌==◌, nat_eq, list_eq,
  sorted, to_set, false,
}
use postgres_dbre.Prelude.Dict.{lookup, insert, erase, keys}
use postgres_dbre.Text.{Text, codes, join, split_on, text_le, has_text, starts_with, after_prefix}
use postgres_dbre.Os.{FilePath, Fs, file, directory, symlink, exists, makedirs, open_and_write}
use postgres_dbre.Os.Steps.{Reach}
use postgres_dbre.Model.{filename}
use postgres_dbre.Writer.{names, relative_path, write_text}
use postgres_dbre.Writer.Manifest.{manifest_path, load_manifest, sort_items}
use postgres_dbre.Writer.Workflows.{
  join_path, write_managed, write_script, write_scripts, write_workflow, write_each, write_index,
  write_workflows,
}
use postgres_dbre.Writer.Sync.{
  sync_managed_artifacts, sync_from, remove_categories, remove_all, stale_paths, categories_to_sync,
  update_categories, next_categories, write_manifest, finish,
}
use postgres_dbre.Build.{
  Registered, category_modules, select_modules, build_module, build_modules, main,
}
use postgres_dbre.Build.Runs.{CoversBuild, main-Reach, main-writes_nowhere_else, main-keeps_links}
use postgres_dbre.Tests.Validation.{script, workflow}
use postgres_dbre.Tests.Writing.{one_digest, one_workflow}

abbrev pub connections_module : Text
connections_module = codes "tools.repo_builder.wf_connections"

registry : Text → Registered
unfolding one_workflow
registry m =
    if m == connections_module
    then record { workflows = one_workflow; category = codes "connections" }
    else record { workflows = []; category = codes "other" }

abbrev places : List FilePath
places =
    manifest_path
    ∷ (codes "README.md" ∷ codes "connections" ∷ [])
    ∷ (codes "README.md" ∷ codes "connection-spikes" ∷ codes "connections" ∷ [])
    ∷ (codes "README.md" ∷ codes "scripts" ∷ codes "connection-spikes" ∷ codes "connections" ∷ [])
    ∷ (codes "01_a.sql" ∷ codes "scripts" ∷ codes "connection-spikes" ∷ codes "connections" ∷ [])
    ∷ []

abbrev IsPlace : FilePath → Text → Type 0
IsPlace p content = contains places p ≡ true

abbrev pub only : Option Text
only = some (codes "wf_connections")

places-CoversBuild : CoversBuild IsPlace registry (select_modules only)
unfolding registry one_workflow script workflow select_modules category_modules has_text starts_with
    after_prefix split_on join_path names filename list_eq nat_eq
places-CoversBuild = record {
  manifest = λ content. refl;
  workflows =
      ((record { readme = refl; scripts_readme = refl; scripts = (λ e. refl, tt) }, tt), tt);
  indexes = (refl, tt);
}

-- A file of a user, and a link.
abbrev before : Fs
before =
    (codes "notes.txt" ∷ [], file (codes "keep"))
    ∷ (codes "docs" ∷ [], directory)
    ∷ (codes "latest" ∷ codes "docs" ∷ [], symlink false)
    ∷ []

main-Reach_example : Reach IsPlace before (main one_digest registry (codes "r") only before).1
main-Reach_example =
    main-Reach IsPlace one_digest registry (codes "r") only before places-CoversBuild

-- What the build calls.
unfoldable pub run_build : Fs → Fs
unfolding main registry one_workflow script workflow select_modules category_modules has_text
    starts_with after_prefix split_on join_path names filename list_eq nat_eq build_modules
    build_module write_workflows write_each write_workflow write_managed write_script write_scripts
    write_index write_text makedirs open_and_write relative_path join lookup insert erase
    sync_managed_artifacts sync_from load_manifest exists remove_categories remove_all stale_paths
    categories_to_sync update_categories next_categories write_manifest finish sorted to_set text_le
    keys sort_items
run_build fs = (main one_digest registry (codes "r") only fs).1

main-writes_nowhere_else_example :
    lookup (codes "notes.txt" ∷ []) before ≡ some (file (codes "keep"))
unfolding run_build
main-writes_nowhere_else_example =
    main-writes_nowhere_else IsPlace one_digest registry (codes "r") only before
      (codes "notes.txt" ∷ []) (codes "keep") places-CoversBuild (λ h. cc) refl

main-keeps_links_example :
    lookup (codes "latest" ∷ codes "docs" ∷ []) (main one_digest registry (codes "r") only before).1
    ≡ some (symlink false)
unfolding run_build
main-keeps_links_example =
    main-keeps_links one_digest registry (codes "r") only before
      (codes "latest" ∷ codes "docs" ∷ []) false refl
