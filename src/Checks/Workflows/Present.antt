-- ===== src/Checks/Workflows/Present.antt =====
-- What the silence of `check_workflow_readmes` means.
use postgres_dbre.Prelude.{◌≡◌, ◌↔◌, refl, true, inl, inr, List, [], ◌∷◌, All, Bool-cases}
use postgres_dbre.Text.{codes}
use postgres_dbre.Os.{FilePath, Fs, is_dir, is_file}
use postgres_dbre.Checks.{discover_workflow_dirs}
use postgres_dbre.Checks.Silence.{append-eq-nil}
use postgres_dbre.Checks.Workflows.{workflow_issues, issues_of, check_workflow_readmes}

-- A workflow directory with its README, its scripts directory and the README of that.
pub record IsComplete (fs : Fs) (workflow : FilePath) : Type 0 where
  pub readme : is_file (codes "README.md" ∷ workflow) fs ≡ true
  pub scripts : is_dir (codes "scripts" ∷ workflow) fs ≡ true
  pub scripts_readme : is_file (codes "README.md" ∷ codes "scripts" ∷ workflow) fs ≡ true

workflow_issues_none :
    (fs : Fs) (workflow : FilePath) → (workflow_issues fs workflow ≡ []) ↔ IsComplete fs workflow
unfolding workflow_issues
workflow_issues_none fs workflow = elim (Bool-cases (is_file (codes "README.md" ∷ workflow) fs)) [
  | inr e ↦ rw e (λ h. cc, λ c. cc (c.readme))
  | inl e ↦ elim (Bool-cases (is_dir (codes "scripts" ∷ workflow) fs)) [
    | inr d ↦ rw (e, d) (λ h. cc, λ c. cc (c.scripts))
    | inl d ↦ elim (Bool-cases (is_file (codes "README.md" ∷ codes "scripts" ∷ workflow) fs)) [
      | inr g ↦ rw (e, d, g) (λ h. cc, λ c. cc (c.scripts_readme))
      | inl g ↦
          rw (e, d, g) (λ h. record { readme = e; scripts = d; scripts_readme = g }, λ c. refl)
    ]
  ]
]

issues_of_none :
    (fs : Fs) (dirs : List FilePath) → (issues_of fs dirs ≡ []) ↔ All (IsComplete fs) dirs
issues_of_none fs [] = (λ h. tt, λ h. refl)
issues_of_none fs (dir ∷ dirs) =
    let both = append-eq-nil (workflow_issues fs dir) (issues_of fs dirs) in
    let first = workflow_issues_none fs dir in
    let ih = issues_of_none fs dirs in
    (λ h. (first.0 (both.0 h).0, ih.0 (both.0 h).1), λ h. both.1 (first.1 h.0, ih.1 h.1))

-- The check reports nothing exactly if every workflow directory that is discovered in the tree has
-- the file README.md, the directory scripts, and in it the file README.md.
pub check_workflow_readmes_none_iff :
    (fs : Fs) → (check_workflow_readmes fs ≡ []) ↔ All (IsComplete fs) (discover_workflow_dirs fs)
unfolding check_workflow_readmes
check_workflow_readmes_none_iff fs = issues_of_none fs (discover_workflow_dirs fs)
