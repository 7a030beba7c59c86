-- ===== src/Writer/Workflows/Returned.antt =====
-- When `write_workflows` returns.
use postgres_dbre.Prelude.{◌≡◌, Bool, true, All, nat_eq, list_eq}
use postgres_dbre.Text.{Text}
use postgres_dbre.Os.{FilePath}
use postgres_dbre.Os.Returns.{Returns, IsFree}
use postgres_dbre.Model.{Workflow}
use postgres_dbre.Writer.Workflows.{
  readme_path, scripts_readme_path, script_path, category_readme_path,
}

module _ (for_dir : FilePath → Bool) where
  -- The generator writes all scripts of the workflow, and every file's place is free for it.
  pub record HasPlaces (wf : Workflow) : Type 0 where
    pub readme : IsFree for_dir (readme_path wf)
    pub scripts_readme : IsFree for_dir (scripts_readme_path wf)
    pub index : IsFree for_dir (category_readme_path wf.category_slug)
    pub scripts :
        All (λ s. (s.generator_managed ≡ true) × IsFree for_dir (script_path wf s)) wf.scripts
