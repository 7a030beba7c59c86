-- ===== src/Registry/Built.antt =====
-- What the checks say of the tree that `main` of build_repository.py leaves for registered workflows.
use postgres_dbre.Prelude.{
  ◌≡◌, ◌⊎◌, inl, inr, Option, some, List, [], ◌∷◌, All, true, nat_eq, list_eq,
}
use postgres_dbre.Prelude.Dict.{lookup}
use postgres_dbre.Text.{Text}
use postgres_dbre.Os.{FilePath, Fs, file}
use postgres_dbre.Model.{Workflow, Script}
use postgres_dbre.Writer.Json.{Host}
use postgres_dbre.Writer.Workflows.{script_path, render_script}
use postgres_dbre.Checks.Sql.Passed.{IsPassed, IsPassedSql}
use postgres_dbre.Build.{Registered, select_modules, main}
use postgres_dbre.Build.Passed.{ScriptsPassed, main-keeps_passed}
use postgres_dbre.Registry.Accepted.{IsAccepted}
use postgres_dbre.Registry.Connections.{connections_workflows}
use postgres_dbre.Registry.Connections.Checked.{connections_workflows-IsAccepted}
use postgres_dbre.Registry.Replication.{replication_workflows}
use postgres_dbre.Registry.Replication.Checked.{replication_workflows-IsAccepted}
use postgres_dbre.Registry.TablesIndexes.{tables_indexes_workflows}
use postgres_dbre.Registry.TablesIndexes.Checked.{tables_indexes_workflows-IsAccepted}

-- The workflows of one of the three modules.
abbrev pub IsRegistered : List Workflow → Type 0
IsRegistered ws =
    (ws ≡ connections_workflows) ⊎ ((ws ≡ replication_workflows) ⊎ (ws ≡ tables_indexes_workflows))

scripts-Passed :
    (wf : Workflow) (scripts : List Script)
    → ((p : FilePath) → All (λ s. IsPassed p (render_script wf s)) scripts)
    → All
        (λ s. s.generator_managed ≡ true → IsPassedSql (script_path wf s) (render_script wf s))
        scripts
scripts-Passed wf [] h = tt
scripts-Passed wf (s ∷ rest) h =
    (λ managed sql. (h (script_path wf s)).0, scripts-Passed wf rest (λ p. (h p).1))

pub accepted-Passed :
    (ws : List Workflow) → ((p : FilePath) → All (IsAccepted p) ws) → All ScriptsPassed ws
accepted-Passed [] h = tt
accepted-Passed (wf ∷ ws) h =
    (scripts-Passed wf wf.scripts (λ p. (h p).0.scripts), accepted-Passed ws (λ p. (h p).1))

registered-Passed : (ws : List Workflow) → IsRegistered ws → All ScriptsPassed ws
registered-Passed ws (inl e) =
    rw e (accepted-Passed connections_workflows connections_workflows-IsAccepted)
registered-Passed ws (inr (inl e)) =
    rw e (accepted-Passed replication_workflows replication_workflows-IsAccepted)
registered-Passed ws (inr (inr e)) =
    rw e (accepted-Passed tables_indexes_workflows tables_indexes_workflows-IsAccepted)

modules-Passed :
    (import_module : Text → Registered) (ms : List Text)
    → All (λ m. IsRegistered (import_module m).workflows) ms
    → All (λ m. All ScriptsPassed (import_module m).workflows) ms
modules-Passed import_module [] h = tt
modules-Passed import_module (m ∷ ms) (h, hs) =
    (registered-Passed (import_module m).workflows h, modules-Passed import_module ms hs)

-- If every selected module has the workflows of wf_connections.py, wf_replication.py or
-- wf_tables_indexes.py, and every text at a place of a SQL file passes the checks of headers,
-- destructive statements and placeholders before, then every one passes them after `main`, whatever
-- its outcome.
pub registered_build-keeps_passed :
    (host : Host) (import_module : Text → Registered) (root : Text) (only : Option Text) (fs : Fs)
    → All (λ m. IsRegistered (import_module m).workflows) (select_modules only)
    → ((p : FilePath) (t : Text) → lookup p fs ≡ some (file t) → IsPassedSql p t)
    → (p : FilePath) (t : Text) → lookup p (main host import_module root only fs).1 ≡ some (file t)
    → IsPassedSql p t
registered_build-keeps_passed host import_module root only fs registered =
    main-keeps_passed import_module host root only fs
      (modules-Passed import_module (select_modules only) registered)
