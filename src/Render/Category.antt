-- ===== src/Render/Category.antt =====
-- render.py: `render_category_readme`.
use postgres_dbre.Prelude.{
  List, [], ◌∷◌, ◌++◌, map, keep_if, if◌then◌else◌, is_empty, nat_eq, list_eq, sorted, to_set,
}
use postgres_dbre.Text.{Text, codes, concat, join, starts_with, text_le}
use postgres_dbre.Model.{Workflow}
use postgres_dbre.Render.{lines, label_parts}

abbrev workflow_row : Workflow → Text
workflow_row w = concat (
    codes "| [`"
    ∷ w.slug
    ∷ codes "`]("
    ∷ w.slug
    ∷ codes "/README.md) | "
    ∷ w.summary
    ∷ codes " |"
    ∷ [])

-- `_label`
unfoldable pub label : Text → Text
label rel = if is_empty (label_parts rel) then rel else join (codes "/") (label_parts rel)

-- The links of all workflows that leave the category, each once; they are sorted when printed, so
-- the order in which they are found is not kept.
abbrev cross_links : List Workflow → List Text
cross_links [] = []
cross_links (w ∷ ws) =
    keep_if (λ rel. starts_with rel (codes "../../")) w.related_issues ++ cross_links ws

unfoldable pub related_categories : List Workflow → List Text
related_categories workflows = sorted text_le (to_set (cross_links workflows))

abbrev related_line : Text → Text
related_line r = concat (codes "- [`" ∷ label r ∷ codes "`](" ∷ r ∷ codes ")" ∷ [])

abbrev related_block : List Text → Text
related_block [] = []
related_block (r ∷ rs) =
    concat
      (codes "\n## Related Categories\n\n" ∷ lines (map related_line (r ∷ rs)) ∷ codes "\n" ∷ [])

unfoldable pub render_category_readme : Text → Text → List Workflow → Text
render_category_readme category_slug category_title workflows = concat (
    codes "# "
    ∷ category_title
    ∷ codes "\n\n**Category:** `"
    ∷ category_slug
    ∷ codes "`\n\nThis is the index for the `"
    ∷ category_slug
    ∷ codes
        "/` category: every workflow\n(issue directory) below addresses a distinct, real operational problem or\nDBA use case for this Aurora PostgreSQL toolkit, per the repository's\none-parent-directory-per-problem design. Each workflow directory is\nself-contained -- its own `README.md` (problem description, symptoms,\nbusiness impact, root causes, investigation strategy, prerequisites,\ninterpretation guide, remediation options, production safety, and\nescalation criteria) and a `scripts/` directory of numbered, read-only-by\n-default investigation scripts (see each workflow's `scripts/README.md`\nfor the full script-by-script execution table).\n\n## Workflows\n\n| Workflow | Summary |\n| --- | --- |\n"
    ∷ lines (map workflow_row workflows)
    ∷ codes "\n"
    ∷ related_block (related_categories workflows)
    ∷ codes
        "\nStart with the workflow whose title most closely matches the symptom you are\ninvestigating; if uncertain, `database-health/comprehensive-health-check`\nand `incident-response/production-triage` both provide a broad first pass\nthat surfaces which specific workflow to open next.\n"
    ∷ [])
