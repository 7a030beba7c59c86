-- ===== src/Build/Runs.antt =====
-- `main` of build_repository.py as a run of the file tree's machine, and what follows for the tree.
use postgres_dbre.Prelude.{
  ◌≡◌, inl, inr, true, not, any, Bool-cases, Option, some, List, [], ◌∷◌, All, ◌==◌, nat_eq,
  list_eq, Bool,
}
use postgres_dbre.Prelude.Dict.{lookup}
use postgres_dbre.Text.{Text}
use postgres_dbre.Os.{FilePath, Fs, file, symlink}
use postgres_dbre.Os.Steps.{Reach, here}
use postgres_dbre.Os.Steps.Kept.{Reach-link, Reach-written}
use postgres_dbre.Os.Runs.{Runs, Runs-bind}
use postgres_dbre.Model.{Script, Workflow}
use postgres_dbre.Writer.Json.{Host}
use postgres_dbre.Writer.Manifest.{manifest_path}
use postgres_dbre.Writer.Workflows.{write_workflows}
use postgres_dbre.Writer.Sync.{sync_managed_artifacts}
use postgres_dbre.Writer.Runs.{Covers, CoversIndex, write_workflows-Runs}
use postgres_dbre.Writer.Sync.Runs.{sync_managed_artifacts-Runs}
use postgres_dbre.Build.{
  Registered, Progress, start, select_modules, is_full, build_category, build_module, build_modules,
  main,
}

-- What the workflows of the selected modules are rendered to, and a manifest, may be written at
-- their places.
pub record CoversBuild (Written : FilePath → Text → Type 0) (import_module : Text → Registered)
    (modules : List Text) : Type 0 where
  pub manifest : (content : Text) → Written manifest_path content
  pub workflows : All (λ m. All (Covers Written) (import_module m).workflows) modules
  pub indexes : All (λ m. CoversIndex Written (import_module m).workflows) modules

module _ (Written : FilePath → Text → Type 0) (host : Host)
    (import_module : Text → Registered) where
  build_category-Runs :
      (mod_name category : Text) (workflows : List Workflow) (p : Progress)
      → All (Covers Written) workflows
      → CoversIndex Written workflows
      → Runs Written (build_category host import_module mod_name category workflows p)
  build_category-Runs mod_name category [] p c index fs = here
  build_category-Runs mod_name category (w ∷ ws) p c index fs =
      elim (Bool-cases (any (λ wf. not (wf.category_slug == category)) (w ∷ ws))) [
        | inl e ↦ rw e here
        | inr e ↦ rw e (
            Runs-bind Written (write_workflows host (w ∷ ws)) _
              (write_workflows-Runs Written host (w ∷ ws) c index) (λ written gs. here) fs)
      ]

  build_modules-Runs :
      (modules : List Text) (p : Progress)
      → All (λ m. All (Covers Written) (import_module m).workflows) modules
      → All (λ m. CoversIndex Written (import_module m).workflows) modules
      → Runs Written (build_modules host import_module modules p)
  unfolding build_modules build_module
  build_modules-Runs [] p c i fs = here
  build_modules-Runs (m ∷ rest) p (c, cs) (i, ixs) fs =
      Runs-bind Written (build_module host import_module m p)
        (build_modules host import_module rest)
        (build_category-Runs m (import_module m).category (import_module m).workflows p c i)
        (λ next. build_modules-Runs rest next cs ixs) fs

  -- Whatever its outcome, `main` refines the machine: all that it does to the tree, an exception half
  -- way included, is a sequence of steps, each of which makes a directory where nothing stood, removes
  -- a file or an empty directory, or writes a text to a path that `Written` allows, which is any
  -- relation that allows manifests at their place, and at the places of the selected workflows'
  -- managed scripts and READMEs what these are rendered to.
  pub main-Reach :
      (root : Text) (only : Option Text) (fs : Fs)
      → CoversBuild Written import_module (select_modules only)
      → Reach Written fs (main host import_module root only fs).1
  unfolding main
  main-Reach root only fs c =
      Runs-bind Written (build_modules host import_module (select_modules only) start) _
        (build_modules-Runs (select_modules only) start c.workflows c.indexes)
        (λ p.
          Runs-bind Written (sync_managed_artifacts host p.generated p.selected (is_full only)) _
            (sync_managed_artifacts-Runs Written host c.manifest p.generated p.selected
              (is_full only))
            (λ removed gs. here))
        fs

  -- After `main`, whatever its outcome, a text that is not one that the build writes at its place
  -- stood there before.
  pub main-writes_nowhere_else :
      (root : Text) (only : Option Text) (fs : Fs) (p : FilePath) (content : Text)
      → CoversBuild Written import_module (select_modules only)
      → ¬ Written p content
      → lookup p (main host import_module root only fs).1 ≡ some (file content)
      → lookup p fs ≡ some (file content)
  main-writes_nowhere_else root only fs p content c foreign =
      Reach-written p content foreign (main-Reach root only fs c)

-- Everything may be written.
abbrev Anywhere : FilePath → Text → Type 0
Anywhere p content = Unit

Anywhere-Covers : (wf : Workflow) → Covers Anywhere wf
Anywhere-Covers wf = record { readme = tt; scripts_readme = tt; scripts = every wf.scripts }
  where
    every : (scripts : List Script) → All (λ s. s.generator_managed ≡ true → Unit {0}) scripts
    every [] = tt
    every (s ∷ rest) = (λ e. tt, every rest)

Anywhere-CoversBuild :
    (import_module : Text → Registered) (modules : List Text)
    → CoversBuild Anywhere import_module modules
Anywhere-CoversBuild import_module modules = record {
  manifest = λ content. tt;
  workflows = of_modules modules;
  indexes = of_indexes modules;
}
  where
    of_workflows : (ws : List Workflow) → All (Covers Anywhere) ws
    of_workflows [] = tt
    of_workflows (w ∷ ws) = (Anywhere-Covers w, of_workflows ws)

    of_index : (ws : List Workflow) → CoversIndex Anywhere ws
    of_index [] = tt
    of_index (w ∷ ws) = tt

    of_indexes : (ms : List Text) → All (λ m. CoversIndex Anywhere (import_module m).workflows) ms
    of_indexes [] = tt
    of_indexes (m ∷ ms) = (of_index (import_module m).workflows, of_indexes ms)

    of_modules : (ms : List Text) → All (λ m. All (Covers Anywhere) (import_module m).workflows) ms
    of_modules [] = tt
    of_modules (m ∷ ms) = (of_workflows (import_module m).workflows, of_modules ms)

module _ (host : Host) (import_module : Text → Registered) (root : Text) (only : Option Text) where
  -- `main` leaves every symbolic link where it stands, whatever its outcome.
  pub main-keeps_links :
      (fs : Fs) (p : FilePath) (opens : Bool)
      → lookup p fs ≡ some (symlink opens)
      → lookup p (main host import_module root only fs).1 ≡ some (symlink opens)
  main-keeps_links fs p opens = Reach-link p opens (
      main-Reach Anywhere host import_module root only fs
        (Anywhere-CoversBuild import_module (select_modules only)))
