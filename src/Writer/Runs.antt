-- ===== src/Writer/Runs.antt =====
-- The writer's actions as runs of the file tree's machine: they write at the places of workflows and
-- at the manifest's alone.
use postgres_dbre.Prelude.{
  ◌≡◌, refl, inl, inr, Bool, true, false, Bool-cases, List, [], ◌∷◌, All, if◌then◌else◌, nat_eq,
  list_eq,
}
use postgres_dbre.Text.{Text}
use postgres_dbre.Os.{FilePath, Io, makedirs, open_and_write, is_file}
use postgres_dbre.Os.Steps.{here}
use postgres_dbre.Os.Runs.{Runs, Runs-bind, write_after}
use postgres_dbre.Model.{Script, Workflow}
use postgres_dbre.Render.Readme.{render_workflow_readme}
use postgres_dbre.Render.Category.{render_category_readme}
use postgres_dbre.Render.Scripts.{render_scripts_readme}
use postgres_dbre.Writer.{write_text}
use postgres_dbre.Writer.Json.{Host}
use postgres_dbre.Writer.Manifest.{Files}
use postgres_dbre.Writer.Workflows.{
  readme_path, scripts_readme_path, script_path, category_readme_path, write_managed,
  check_external, render_script, write_script, write_scripts, write_workflow, write_each,
  write_index, write_workflows,
}

-- What a workflow's files are rendered to may be written at their places.
pub record Covers (Written : FilePath → Text → Type 0) (wf : Workflow) : Type 0 where
  pub readme : Written (readme_path wf) (render_workflow_readme wf)
  pub scripts_readme : Written (scripts_readme_path wf) (render_scripts_readme wf)
  pub scripts :
      All
        (λ s. s.generator_managed ≡ true → Written (script_path wf s) (render_script wf s))
        wf.scripts

-- The same of the category's README, which the first workflow names.
abbrev pub CoversIndex : (FilePath → Text → Type 0) → List Workflow → Type 0
CoversIndex Written [] = Unit
CoversIndex Written (wf ∷ rest) =
    Written (category_readme_path wf.category_slug)
      (render_category_readme wf.category_slug wf.category_title (wf ∷ rest))

module _ (Written : FilePath → Text → Type 0) where
  pub write_text-Runs :
      (path : FilePath) (content : Text)
      → Written path content
      → Runs Written (write_text path content)
  unfolding write_text
  write_text-Runs [] content w fs = unfold makedirs open_and_write in here
  write_text-Runs (name ∷ dir) content w fs = write_after Written name dir content w fs

  module _ (host : Host) where
    write_managed-Runs :
        (path : FilePath) (content : Text) (written : Files)
        → Written path content
        → Runs Written (write_managed host path content written)
    unfolding write_managed
    write_managed-Runs path content written w =
        Runs-bind Written (write_text path content) _ (write_text-Runs path content w)
          (λ _ fs. here)

    check_external-Runs :
        (path : FilePath) (written : Files) → Runs Written (check_external host path written)
    check_external-Runs path written fs = elim (Bool-cases (is_file path fs)) [
      | inl e ↦ rw e here
      | inr e ↦ rw e here
    ]

    pub if-Runs :
        {A : Type 0} (test : Bool) (m n : Io A)
        → (test ≡ true → Runs Written m)
        → Runs Written n
        → Runs Written (if test then m else n)
    if-Runs true m n rm rn = rm refl
    if-Runs false m n rm rn = rn

    write_script-Runs :
        (wf : Workflow) (s : Script) (written : Files)
        → (s.generator_managed ≡ true → Written (script_path wf s) (render_script wf s))
        → Runs Written (write_script host wf s written)
    unfolding write_script
    write_script-Runs wf s written w =
        if-Runs s.generator_managed (write_managed host (script_path wf s) _ written)
          (check_external host (script_path wf s) written)
          (λ e. write_managed-Runs (script_path wf s) _ written (w e))
          (check_external-Runs (script_path wf s) written)

    write_scripts-Runs :
        (wf : Workflow) (scripts : List Script) (written : Files)
        → All
            (λ s. s.generator_managed ≡ true → Written (script_path wf s) (render_script wf s))
            scripts
        → Runs Written (write_scripts host wf scripts written)
    unfolding write_scripts
    write_scripts-Runs wf [] written w fs = here
    write_scripts-Runs wf (s ∷ rest) written (w, ws) fs =
        Runs-bind Written (write_script host wf s written) (write_scripts host wf rest)
          (write_script-Runs wf s written w) (λ next. write_scripts-Runs wf rest next ws) fs

    write_workflow-Runs :
        (wf : Workflow) (written : Files)
        → Covers Written wf
        → Runs Written (write_workflow host wf written)
    unfolding write_workflow
    write_workflow-Runs wf written c =
        Runs-bind Written (write_managed host (readme_path wf) _ written) _
          (write_managed-Runs (readme_path wf) _ written c.readme)
          λ next.
            Runs-bind Written (write_managed host (scripts_readme_path wf) _ next) _
              (write_managed-Runs (scripts_readme_path wf) _ next c.scripts_readme)
              (λ last. write_scripts-Runs wf wf.scripts last c.scripts)

    write_each-Runs :
        (workflows : List Workflow) (written : Files)
        → All (Covers Written) workflows
        → Runs Written (write_each host workflows written)
    unfolding write_each
    write_each-Runs [] written c fs = here
    write_each-Runs (wf ∷ rest) written (c, cs) fs =
        Runs-bind Written (write_workflow host wf written) (write_each host rest)
          (write_workflow-Runs wf written c) (λ next. write_each-Runs rest next cs) fs

    write_index-Runs :
        (workflows : List Workflow) (written : Files)
        → CoversIndex Written workflows
        → Runs Written (write_index host workflows written)
    unfolding write_index
    write_index-Runs [] written c fs = here
    write_index-Runs (wf ∷ rest) written c fs =
        write_managed-Runs (category_readme_path wf.category_slug) _ written c fs

    pub write_workflows-Runs :
        (workflows : List Workflow)
        → All (Covers Written) workflows
        → CoversIndex Written workflows
        → Runs Written (write_workflows host workflows)
    unfolding write_workflows
    write_workflows-Runs workflows c index =
        Runs-bind Written (write_each host workflows []) (write_index host workflows)
          (write_each-Runs workflows [] c) (λ written. write_index-Runs workflows written index)
