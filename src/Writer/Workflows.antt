-- ===== src/Writer/Workflows.antt =====
-- writer.py: `write_workflows`. Slugs and file names are taken as relative paths without `..`.
pub mod Recorded
pub mod Returned
use postgres_dbre.Prelude.{List, [], ◌∷◌, ◌++◌, reverse, if◌then◌else◌, ◌==◌, nat_eq, list_eq}
use postgres_dbre.Prelude.Dict.{insert}
use postgres_dbre.Text.{Text, codes}
use postgres_dbre.Os.{FilePath, ok, err, Io, pure, ◌>>=◌, ◌>>◌, is_file, missing_external}
use postgres_dbre.Model.{Script, Workflow, filename}
use postgres_dbre.Render.{render_sql_file, render_md_runbook}
use postgres_dbre.Render.Readme.{render_workflow_readme}
use postgres_dbre.Render.Category.{render_category_readme}
use postgres_dbre.Render.Scripts.{render_scripts_readme}
use postgres_dbre.Writer.{write_text, names, relative_path}
use postgres_dbre.Writer.Json.{Host}
use postgres_dbre.Writer.Manifest.{Files}

-- `os.path.join(root, a, b, ...)`
abbrev all_names : List Text → List Text
all_names [] = []
all_names (part ∷ rest) = names part ++ all_names rest

unfoldable pub join_path : List Text → FilePath
join_path components = reverse (all_names components)

abbrev pub readme_path : Workflow → FilePath
readme_path wf = join_path (wf.category_slug ∷ wf.slug ∷ codes "README.md" ∷ [])

abbrev pub scripts_readme_path : Workflow → FilePath
scripts_readme_path wf =
    join_path (wf.category_slug ∷ wf.slug ∷ codes "scripts" ∷ codes "README.md" ∷ [])

abbrev pub script_path : Workflow → Script → FilePath
script_path wf s = join_path (wf.category_slug ∷ wf.slug ∷ codes "scripts" ∷ filename s ∷ [])

abbrev pub category_readme_path : Text → FilePath
category_readme_path category = join_path (category ∷ codes "README.md" ∷ [])

unfoldable pub render_script : Workflow → Script → Text
render_script wf s = if s.kind == codes "sql" then render_sql_file wf s else render_md_runbook wf s

module _ (host : Host) where
  -- `write_text(path, content)` and `written[...] = _content_hash(content)`
  unfoldable pub write_managed : FilePath → Text → Files → Io Files
  write_managed path content written =
      write_text path content >> pure (insert (relative_path path) (host.sha256 content) written)

  abbrev pub check_external : FilePath → Files → Io Files
  check_external path written fs =
      if is_file path fs then (ok written, fs) else (err (missing_external path), fs)

  unfoldable pub write_script : Workflow → Script → Files → Io Files
  write_script wf s written =
      if s.generator_managed
      then write_managed (script_path wf s) (render_script wf s) written
      else check_external (script_path wf s) written

  unfoldable pub write_scripts : Workflow → List Script → Files → Io Files
  write_scripts wf [] written = pure written
  write_scripts wf (s ∷ rest) written = write_script wf s written >>= write_scripts wf rest

  unfoldable pub write_workflow : Workflow → Files → Io Files
  write_workflow wf written =
      write_managed (readme_path wf) (render_workflow_readme wf) written >>= λ written'.
      write_managed (scripts_readme_path wf) (render_scripts_readme wf) written'
      >>= write_scripts wf wf.scripts

  unfoldable pub write_each : List Workflow → Files → Io Files
  write_each [] written = pure written
  write_each (wf ∷ rest) written = write_workflow wf written >>= write_each rest

  -- The index of the category, named by its first workflow.
  unfoldable pub write_index : List Workflow → Files → Io Files
  write_index [] written = pure written
  write_index (wf ∷ rest) written =
      write_managed (category_readme_path wf.category_slug)
        (render_category_readme wf.category_slug wf.category_title (wf ∷ rest)) written

  unfoldable pub write_workflows : List Workflow → Io Files
  write_workflows workflows = write_each workflows [] >>= write_index workflows
