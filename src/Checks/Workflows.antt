-- ===== src/Checks/Workflows.antt =====
-- checks.py: `check_workflow_readmes`.
pub mod Present
use postgres_dbre.Prelude.{Bool, true, false, not, List, [], ◌∷◌, ◌++◌}
use postgres_dbre.Text.{Text, codes}
use postgres_dbre.Os.{FilePath, Fs, is_dir, is_file}
use postgres_dbre.Checks.{Issue, error, rel, when, discover_workflow_dirs}

abbrev readme_issue : FilePath → Text → Issue
readme_issue workflow message = record {
  severity = error;
  check = codes "workflow-readme";
  path = rel workflow;
  message = message;
}

abbrev pub scripts_issues : FilePath → Bool → Bool → List Issue
scripts_issues workflow false readme =
    readme_issue workflow (codes "missing scripts/ directory") ∷ []
scripts_issues workflow true readme =
    when (not readme) (readme_issue workflow (codes "missing scripts/README.md"))

unfoldable pub workflow_issues : Fs → FilePath → List Issue
workflow_issues fs workflow =
    when (not (is_file (codes "README.md" ∷ workflow) fs))
      (readme_issue workflow (codes "missing README.md"))
    ++ scripts_issues workflow (is_dir (codes "scripts" ∷ workflow) fs)
        (is_file (codes "README.md" ∷ codes "scripts" ∷ workflow) fs)

abbrev pub issues_of : Fs → List FilePath → List Issue
issues_of fs [] = []
issues_of fs (workflow ∷ rest) = workflow_issues fs workflow ++ issues_of fs rest

unfoldable pub check_workflow_readmes : Fs → List Issue
check_workflow_readmes fs = issues_of fs (discover_workflow_dirs fs)
