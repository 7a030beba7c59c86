-- ===== src/Tests/Writing.antt =====
-- `write_workflows` in an empty tree.
use postgres_dbre.Prelude.{refl, Bool, true, not, contains, none, [], ◌∷◌, List, nat_eq, list_eq}
use postgres_dbre.Prelude.Dict.{lookup, insert}
use postgres_dbre.Text.{codes, join, split_on}
use postgres_dbre.Os.{FilePath, makedirs, open_and_write}
use postgres_dbre.Model.{Workflow, filename}
use postgres_dbre.Writer.{write_text, names, relative_path}
use postgres_dbre.Writer.Json.{Host}
use postgres_dbre.Writer.Manifest.{Files}
use postgres_dbre.Writer.Workflows.{
  join_path, write_managed, write_script, write_scripts, write_workflow, write_each, write_index,
  write_workflows,
}
use postgres_dbre.Writer.Workflows.Recorded.{AreWritten, write_workflows-AreWritten}
use postgres_dbre.Tests.Validation.{script, workflow}

-- One digest for all texts.
abbrev pub one_digest : Host
one_digest = record { sha256 = λ s. codes "d"; loads = λ s. none; dumps = λ value. [] }

unfoldable pub one_workflow : List Workflow
unfolding workflow
one_workflow = record workflow { scripts = script ∷ [] } ∷ []

abbrev written : Files
written =
    (codes "connections/connection-spikes/README.md", codes "d")
    ∷ (codes "connections/connection-spikes/scripts/README.md", codes "d")
    ∷ (codes "connections/connection-spikes/scripts/01_a.sql", codes "d")
    ∷ (codes "connections/README.md", codes "d")
    ∷ []

write_workflows-AreWritten_example :
    AreWritten one_digest written (write_workflows one_digest one_workflow []).1
unfolding write_workflows write_each write_workflow write_managed write_script write_scripts
    write_index write_text makedirs open_and_write join_path names split_on relative_path join
    filename lookup insert list_eq nat_eq one_workflow script workflow
write_workflows-AreWritten_example =
    write_workflows-AreWritten one_digest one_workflow [] written refl

-- The places of the tree are for directories, but for names with a dot.
has_no_dot : FilePath → Bool
has_no_dot [] = true
has_no_dot (name ∷ _) = not (contains name b'.')
