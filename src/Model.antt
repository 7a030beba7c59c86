-- ===== src/Model.antt =====
-- tools/repo_builder/model.py: the records of scripts and workflows.
use postgres_dbre.Prelude.{Bool, Option, List, ◌++◌, if◌then◌else◌, ◌==◌, nat_eq, list_eq}
use postgres_dbre.Text.{Text, codes}

-- One numbered artifact of a workflow; `kind` is `sql` or `md`.
pub record Script : Type 0 where
  pub order : Text
  pub name : Text
  pub purpose : Text
  pub safety : Text
  pub expected_impact : Text
  pub required_privileges : Text
  pub prerequisites : Text
  pub related_scripts : Text
  pub interpretation : Text
  pub body : Text
  pub kind : Text
  pub execution_location : Text
  pub aurora_version : Text
  pub expected_runtime : Text
  pub table_purpose : Option Text
  pub generator_managed : Bool

unfoldable pub filename : Script → Text
filename s = s.name ++ (codes "." ++ (if s.kind == codes "sql" then codes "sql" else codes "md"))

pub record Workflow : Type 0 where
  pub category_slug : Text
  pub category_title : Text
  pub slug : Text
  pub title : Text
  pub summary : Text
  pub symptoms : List Text
  pub business_impact : List Text
  pub root_causes : List Text
  pub investigation_strategy : List Text
  pub prerequisites : List Text
  pub interpretation_guide : List Text
  pub remediation_immediate : List Text
  pub remediation_short_term : List Text
  pub remediation_long_term : List Text
  pub production_safety : List Text
  pub escalation_criteria : List Text
  pub related_issues : List Text
  pub scripts : List Script
  pub aurora_notes : List Text
  pub execution_guidance : Text
  pub expected_output_guidance : Text
  pub severe_incident_guidance : Text

unfoldable pub workflow_path : Workflow → Text
workflow_path wf = wf.category_slug ++ (codes "/" ++ wf.slug)
