-- ===== src/Build/Passed.antt =====
-- What the checks say of the SQL files that `main` of build_repository.py leaves.
use mathlib.Mathlib.Data.List.Basic.{reverse-concat'}
use postgres_dbre.Prelude.{
  ◌≡◌, refl, sym, ap, ◌∙◌, inl, inr, true, Option, some, List, [], ◌∷◌, ◌++◌, reverse, append_assoc,
  append-nil, All, nat_eq, list_eq,
}
use postgres_dbre.Prelude.Dict.{lookup}
use postgres_dbre.Text.{Text, codes, starts_with, split_on}
use postgres_dbre.Os.{FilePath, Fs, file}
use postgres_dbre.Os.Steps.Kept.{Reach-origin}
use postgres_dbre.Model.{Workflow}
use postgres_dbre.Writer.{names}
use postgres_dbre.Writer.Json.{Host}
use postgres_dbre.Writer.Manifest.{manifest_path}
use postgres_dbre.Writer.Workflows.{
  join_path, readme_path, scripts_readme_path, category_readme_path, script_path, render_script,
}
use postgres_dbre.Writer.Runs.{Covers, CoversIndex}
use postgres_dbre.Checks.{name_of, ends_with}
use postgres_dbre.Checks.Sql.Passed.{IsPassedSql}
use postgres_dbre.Build.{Registered, select_modules, main}
use postgres_dbre.Build.Runs.{CoversBuild, main-Reach}

name_of-last : (above : List Text) (name : Text) → name_of (reverse (above ++ (name ∷ []))) ≡ name
name_of-last above name = ap name_of (reverse-concat' above name)

names_readme : names (codes "README.md") ≡ codes "README.md" ∷ []
unfolding names split_on list_eq nat_eq
names_readme = refl

-- A README is no SQL file.
not_sql : (p : FilePath) (content : Text) → name_of p ≡ codes "README.md" → IsPassedSql p content
unfolding starts_with
not_sql p content e sql = cc (sym (ap (λ n. ends_with n (codes ".sql")) e) ∙ sql)

category_readme_name :
    (category : Text) → name_of (category_readme_path category) ≡ codes "README.md"
unfolding join_path
category_readme_name category = rw (names_readme, append-nil) (name_of-last (names category) _)

readme_name : (wf : Workflow) → name_of (readme_path wf) ≡ codes "README.md"
unfolding join_path
readme_name wf =
    rw (names_readme, append-nil)
      (ap (λ l. name_of (reverse l)) (sym (append_assoc (names wf.category_slug) (names wf.slug) _))
        ∙ name_of-last (names wf.category_slug ++ names wf.slug) _)

scripts_readme_name : (wf : Workflow) → name_of (scripts_readme_path wf) ≡ codes "README.md"
unfolding join_path
scripts_readme_name wf =
    let category = names wf.category_slug in
    let slug = names wf.slug in
    let scripts = names (codes "scripts") in
    rw (names_readme, append-nil)
      (ap (λ l. name_of (reverse l))
          (sym (append_assoc category slug _) ∙ sym (append_assoc (category ++ slug) scripts _))
        ∙ name_of-last ((category ++ slug) ++ scripts) _)

not_sql_manifest : (content : Text) → IsPassedSql manifest_path content
unfolding starts_with
not_sql_manifest content sql = cc sql

-- The scripts that the generator writes to SQL files pass the checks.
abbrev pub ScriptsPassed : Workflow → Type 0
ScriptsPassed wf =
    All (λ s. s.generator_managed ≡ true → IsPassedSql (script_path wf s) (render_script wf s))
      wf.scripts

module _ (import_module : Text → Registered) where
  workflows-Covers : (ws : List Workflow) → All ScriptsPassed ws → All (Covers IsPassedSql) ws
  workflows-Covers [] h = tt
  workflows-Covers (wf ∷ ws) (h, hs) = (
    record {
      readme = not_sql (readme_path wf) _ (readme_name wf);
      scripts_readme = not_sql (scripts_readme_path wf) _ (scripts_readme_name wf);
      scripts = h;
    },
    workflows-Covers ws hs,
  )

  index-Covers : (ws : List Workflow) → CoversIndex IsPassedSql ws
  index-Covers [] = tt
  index-Covers (wf ∷ ws) =
      not_sql (category_readme_path wf.category_slug) _ (category_readme_name wf.category_slug)

  modules-Covers :
      (ms : List Text)
      → All (λ m. All ScriptsPassed (import_module m).workflows) ms
      → CoversBuild IsPassedSql import_module ms
  modules-Covers [] h = record {
    manifest = λ content. not_sql_manifest content;
    workflows = tt;
    indexes = tt;
  }
  modules-Covers (m ∷ ms) (h, hs) =
      let others = modules-Covers ms hs in
      record {
        manifest = others.manifest;
        workflows = (workflows-Covers (import_module m).workflows h, others.workflows);
        indexes = (index-Covers (import_module m).workflows, others.indexes);
      }

  -- If the scripts of the selected modules that the generator writes to SQL files are rendered to
  -- texts that pass the checks of headers, destructive statements and placeholders, and every text at
  -- a place of a SQL file passed them before, then every one passes them after `main`, whatever its
  -- outcome.
  pub main-keeps_passed :
      (host : Host) (root : Text) (only : Option Text) (fs : Fs)
      → All (λ m. All ScriptsPassed (import_module m).workflows) (select_modules only)
      → ((p : FilePath) (t : Text) → lookup p fs ≡ some (file t) → IsPassedSql p t)
      → (p : FilePath) (t : Text)
      → lookup p (main host import_module root only fs).1 ≡ some (file t)
      → IsPassedSql p t
  main-keeps_passed host root only fs scripts before p t at =
      elim (Reach-origin p t
        (main-Reach IsPassedSql host import_module root only fs
          (modules-Covers (select_modules only) scripts))
        at) [ inl old ↦ before p t old | inr written ↦ written ]
