-- ===== src/Render/Scripts.antt =====
-- render.py: `render_scripts_readme`.
use postgres_dbre.Prelude.{
  Bool, ◌||◌, [], ◌∷◌, ◌++◌, map, keep_if, if◌then◌else◌, is_empty, ◌==◌, nat_eq, list_eq,
}
use postgres_dbre.Text.{Text, codes, concat, strip, is_space, lower, has_text}
use postgres_dbre.Model.{Script, Workflow, filename}
use postgres_dbre.Render.{lines, bullets, or_text, given, none_documented}

abbrev script_row : Script → Text
script_row s = concat (
    codes "| "
    ∷ s.order
    ∷ codes " | `"
    ∷ filename s
    ∷ codes "` | "
    ∷ or_text (given s.table_purpose) s.purpose
    ∷ codes " | "
    ∷ s.safety
    ∷ codes " | "
    ∷ s.expected_runtime
    ∷ codes " |"
    ∷ [])

-- The scripts that `do_not_run` lists.
unfoldable pub is_heavy : Script → Bool
is_heavy s = has_text (codes "resource intensive") (lower s.safety) || s.kind == codes "md"

unfoldable pub do_not_run : Workflow → Text
do_not_run wf =
    bullets
      (map (λ s. filename s ++ (codes " -- " ++ s.expected_impact)) (keep_if is_heavy wf.scripts))

unfoldable pub execution_guidance : Workflow → Text
execution_guidance wf =
    if is_empty wf.execution_guidance
    then []
    else concat (
        codes "\n\n## Platform-specific execution\n\n"
        ∷ strip is_space wf.execution_guidance
        ∷ codes "\n"
        ∷ [])

unfoldable pub investigation_steps : Workflow → Text
investigation_steps wf =
    if is_empty wf.execution_guidance
    then codes "read-only investigation steps"
    else codes "numbered investigation steps"

unfoldable pub expected_output : Workflow → Text
expected_output wf = or_text wf.expected_output_guidance (
    codes
      "Every script returns a result set intended to be read directly in `psql` (or\nany SQL client). Columns are named for direct interpretation; each script's\nheader contains a `HOW TO INTERPRET RESULTS` section, and the parent\n`README.md` section 8 (\"Interpretation Guide\") gives workflow-level guidance.")

unfoldable pub severe_incident_guidance : Workflow → Text
severe_incident_guidance wf = or_text wf.severe_incident_guidance (
    codes
      "_All scripts in this workflow are lightweight, read-only, and safe to run even during a severe incident. Prefer the narrower/most targeted script first if the system is under extreme load._")

unfoldable pub render_scripts_readme : Workflow → Text
render_scripts_readme wf = concat (
    codes "# Scripts: "
    ∷ wf.title
    ∷ codes
        "\n\nExecution order, safety classification, and expected runtime for every script\nin `"
    ∷ wf.category_slug
    ∷ codes "/"
    ∷ wf.slug
    ∷ codes
        "/scripts/`.\n\n| Order | Script | Purpose | Safety | Expected Runtime |\n| ----- | ------ | ------- | ------ | ---------------- |\n"
    ∷ lines (map script_row wf.scripts)
    ∷ codes
        "\n\n## Execution Order\n\nRun scripts strictly in the numeric order shown above. Each script assumes the\noperator has reviewed the output of the prior step. Do not skip ahead to a\nremediation template (`.md` files, if present) without completing the\n"
    ∷ investigation_steps wf
    ∷ codes " first."
    ∷ execution_guidance wf
    ∷ codes
        "\n\n## Required Permissions\n\nUnless a script states otherwise in its `REQUIRED PRIVILEGES` header field, a\nrole with the built-in `pg_monitor` (or `pg_read_all_stats` /\n`pg_read_all_settings`) attribute, `CONNECT` on the target database, and\n`USAGE` on `public` is sufficient. Scripts that read `pg_stat_statements`\nrequire that extension to be installed in the current database. Scripts that\ntouch DDL, `pg_terminate_backend()`, or write operations state elevated\nrequirements explicitly in their own header.\n\n## Expected Output\n\n"
    ∷ expected_output wf
    ∷ codes "\n\n## When to Stop and Escalate\n\n"
    ∷ bullets wf.escalation_criteria
    ∷ codes "\n\n## Scripts That Should Not Be Run During Severe Incidents\n\n"
    ∷ (if do_not_run wf == none_documented then severe_incident_guidance wf else do_not_run wf)
    ∷ codes "\n"
    ∷ [])
