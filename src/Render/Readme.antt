-- ===== src/Render/Readme.antt =====
-- render.py: `render_workflow_readme`.
use postgres_dbre.Prelude.{ℕ, suc, List, [], ◌∷◌, map, if◌then◌else◌, is_empty}
use postgres_dbre.Text.{Text, codes, concat, str_of}
use postgres_dbre.Model.{Script, Workflow, filename}
use postgres_dbre.Render.{lines, bullets, numbered, none_documented, related_link}

-- `script_list`, from number `i` on.
abbrev script_lines : ℕ → List Script → List Text
script_lines i [] = []
script_lines i (s ∷ rest) =
    concat (
      str_of i
      ∷ codes ". [`scripts/"
      ∷ filename s
      ∷ codes "`](scripts/"
      ∷ filename s
      ∷ codes ") -- "
      ∷ s.purpose
      ∷ [])
    ∷ script_lines (suc i) rest

unfoldable pub script_list : Workflow → Text
script_list wf = lines (script_lines 1 wf.scripts)

unfoldable pub related : Workflow → Text
related wf =
    if is_empty wf.related_issues
    then none_documented
    else bullets (map related_link wf.related_issues)

unfoldable pub aurora_block : Workflow → Text
aurora_block wf =
    if is_empty wf.aurora_notes
    then []
    else concat (
        codes
          "\n## Aurora PostgreSQL Notes\n\nDifferences from self-managed / standard PostgreSQL that matter for this workflow:\n\n"
        ∷ bullets wf.aurora_notes
        ∷ codes "\n"
        ∷ [])

unfoldable pub render_workflow_readme : Workflow → Text
render_workflow_readme wf = concat (
    codes "# "
    ∷ wf.title
    ∷ codes "\n\n**Category:** "
    ∷ wf.category_title
    ∷ codes " | **Workflow:** `"
    ∷ wf.category_slug
    ∷ codes "/"
    ∷ wf.slug
    ∷ codes "`\n\n## 1. Problem Description\n\n"
    ∷ wf.summary
    ∷ codes "\n\n## 2. Typical Symptoms\n\n"
    ∷ bullets wf.symptoms
    ∷ codes "\n\n## 3. Business Impact\n\n"
    ∷ bullets wf.business_impact
    ∷ codes "\n\n## 4. Possible Root Causes\n\n"
    ∷ bullets wf.root_causes
    ∷ codes "\n\n## 5. Investigation Strategy\n\n"
    ∷ numbered wf.investigation_strategy
    ∷ codes "\n\n## 6. Prerequisites\n\n"
    ∷ bullets wf.prerequisites
    ∷ codes
        "\n\n## 7. Investigation Workflow\n\nRun the scripts in `scripts/` in numeric order. See `scripts/README.md` for the\nfull execution table (safety, expected runtime, when to stop).\n\n"
    ∷ script_list wf
    ∷ codes "\n"
    ∷ aurora_block wf
    ∷ codes "\n## 8. Interpretation Guide\n\n"
    ∷ bullets wf.interpretation_guide
    ∷ codes
        "\n\n## 9. Remediation Options\n\n**Immediate mitigation** (stop the bleeding, minutes):\n\n"
    ∷ bullets wf.remediation_immediate
    ∷ codes "\n\n**Short-term remediation** (hours to days):\n\n"
    ∷ bullets wf.remediation_short_term
    ∷ codes "\n\n**Long-term engineering fix** (days to weeks):\n\n"
    ∷ bullets wf.remediation_long_term
    ∷ codes "\n\n## 10. Production Safety\n\n"
    ∷ bullets wf.production_safety
    ∷ codes
        "\n\n## 11. Escalation Criteria\n\nEscalate beyond the on-call DBA when any of the following are true:\n\n"
    ∷ bullets wf.escalation_criteria
    ∷ codes "\n\n## 12. Related Issues\n\n"
    ∷ related wf
    ∷ codes "\n"
    ∷ [])
