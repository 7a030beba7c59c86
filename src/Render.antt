-- ===== src/Render.antt =====
-- tools/repo_builder/render.py: the SQL file with its header, the runbook, and the lists that the
-- READMEs are made of. The READMEs are in the children.
pub mod Readme
pub mod Category
pub mod Scripts
use postgres_dbre.Prelude.{
  ℕ, ◌+◌, suc, Bool, true, false, not, Option, none, some, List, [], ◌∷◌, ◌++◌, map, reverse,
  keep_if, contains, is_empty, nat_beq, if◌then◌else◌, ◌==◌, nat_eq, list_eq, ◌≡◌, refl,
}
use postgres_dbre.Text.{Text, codes, newline, join, concat, strip, split_on, str_of}
use postgres_dbre.Model.{Script, Workflow, filename}

-- `"=" * 79`
unfoldable pub rule : Text
rule = codes "==============================================================================="

-- `a or b` for texts, and the text of an optional one, empty where it is absent.
abbrev pub or_text : Text → Text → Text
or_text [] b = b
or_text (c ∷ a) b = c ∷ a

abbrev pub given : Option Text → Text
given none = []
given (some s) = s

abbrev pub is_newline : ℕ → Bool
is_newline c = nat_beq c newline

abbrev pub lines : List Text → Text
lines = join (newline ∷ [])

-- The `lines` of `render_sql_header`.
unfoldable pub sql_header_lines : Workflow → Script → List Text
unfolding rule
sql_header_lines wf s =
    codes "/*"
    ∷ rule
    ∷ codes "SCRIPT NAME:"
    ∷ filename s
    ∷ []
    ∷ codes "PURPOSE:"
    ∷ s.purpose
    ∷ []
    ∷ codes "AURORA POSTGRESQL VERSION:"
    ∷ s.aurora_version
    ∷ []
    ∷ codes "EXECUTION LOCATION:"
    ∷ s.execution_location
    ∷ []
    ∷ codes "SAFETY:"
    ∷ s.safety
    ∷ []
    ∷ codes "EXPECTED IMPACT:"
    ∷ s.expected_impact
    ∷ []
    ∷ codes "REQUIRED PRIVILEGES:"
    ∷ s.required_privileges
    ∷ []
    ∷ codes "PREREQUISITES:"
    ∷ s.prerequisites
    ∷ []
    ∷ codes "EXECUTION ORDER:"
    ∷ concat (
        codes "Step "
        ∷ s.order
        ∷ codes " of workflow '"
        ∷ wf.category_slug
        ∷ codes "/"
        ∷ wf.slug
        ∷ codes "'"
        ∷ [])
    ∷ []
    ∷ codes "RELATED SCRIPTS:"
    ∷ or_text s.related_scripts (codes "None")
    ∷ []
    ∷ codes "HOW TO INTERPRET RESULTS:"
    ∷ s.interpretation
    ∷ rule
    ∷ codes "*/"
    ∷ []

unfoldable pub render_sql_header : Workflow → Script → Text
render_sql_header wf s = lines (sql_header_lines wf s)

unfoldable pub render_sql_file : Workflow → Script → Text
render_sql_file wf s =
    render_sql_header wf s ++ (codes "\n\n" ++ (strip is_newline s.body ++ codes "\n"))

unfoldable pub render_md_runbook : Workflow → Script → Text
render_md_runbook wf s = lines (
    concat (codes "# " ∷ s.name ∷ [])
    ∷ []
    ∷ codes "> **This is a manual remediation/runbook template, not an automatic script.**"
    ∷ codes "> It contains guarded, potentially disruptive steps. Read it fully, adapt the"
    ∷ codes "> guard variables, and execute steps interactively with a second engineer"
    ∷ codes "> present before running anything against production."
    ∷ []
    ∷ codes "| Field | Value |"
    ∷ codes "|---|---|"
    ∷ concat (codes "| Script name | `" ∷ filename s ∷ codes "` |" ∷ [])
    ∷ concat (codes "| Purpose | " ∷ s.purpose ∷ codes " |" ∷ [])
    ∷ concat (codes "| Aurora PostgreSQL version | " ∷ s.aurora_version ∷ codes " |" ∷ [])
    ∷ concat (codes "| Execution location | " ∷ s.execution_location ∷ codes " |" ∷ [])
    ∷ concat (codes "| Safety | " ∷ s.safety ∷ codes " |" ∷ [])
    ∷ concat (codes "| Expected impact | " ∷ s.expected_impact ∷ codes " |" ∷ [])
    ∷ concat (codes "| Required privileges | " ∷ s.required_privileges ∷ codes " |" ∷ [])
    ∷ concat (codes "| Prerequisites | " ∷ s.prerequisites ∷ codes " |" ∷ [])
    ∷ concat (
        codes "| Execution order | Step "
        ∷ s.order
        ∷ codes " of workflow `"
        ∷ wf.category_slug
        ∷ codes "/"
        ∷ wf.slug
        ∷ codes "` |"
        ∷ [])
    ∷ concat
        (codes "| Related scripts | " ∷ or_text s.related_scripts (codes "None") ∷ codes " |" ∷ [])
    ∷ []
    ∷ codes "## How to interpret / use this runbook"
    ∷ []
    ∷ s.interpretation
    ∷ []
    ∷ codes "---"
    ∷ []
    ∷ strip is_newline s.body
    ∷ []
    ∷ [])

abbrev pub none_documented : Text
none_documented = codes "_None documented._"

unfoldable pub bullets : List Text → Text
bullets [] = none_documented
bullets (item ∷ items) = lines (map (λ i. codes "- " ++ i) (item ∷ items))

-- `f"{i}. {item}"` from `i` on.
abbrev pub number_from : ℕ → List Text → List Text
number_from i [] = []
number_from i (item ∷ items) = (str_of i ++ (codes ". " ++ item)) ∷ number_from (suc i) items

unfoldable pub numbered : List Text → Text
numbered [] = none_documented
numbered (item ∷ items) = lines (number_from 1 (item ∷ items))

-- The names of a relative link, without `..`, `.` and `README.md`.
unfoldable pub label_parts : Text → List Text
label_parts rel =
    keep_if (λ p. not (contains (codes ".." ∷ codes "." ∷ codes "README.md" ∷ []) p))
      (split_on b'/' rel)

-- `xs[-1] if xs else default`
abbrev pub last_or : Text → List Text → Text
last_or default [] = default
last_or default (x ∷ xs) = last_or x xs

unfoldable pub related_link : Text → Text
related_link rel =
    concat (codes "[" ∷ last_or rel (label_parts rel) ∷ codes "](" ∷ rel ∷ codes ")" ∷ [])
