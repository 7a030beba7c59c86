-- ===== src/Registry/Accepted.antt =====
-- What the checks of checks.py say of the files that render.py makes of a registered workflow.
use postgres_dbre.Prelude.{◌≡◌, some, List, [], All, map, nat_eq, list_eq, length}
use postgres_dbre.Text.{
  Text, after_prefix, is_space, to_lower, join, starts_with, has_text, concat, strip, upper, lower,
  str_of, split_on,
}
use postgres_dbre.Os.{FilePath, universal_newlines}
use postgres_dbre.Checks.Sql.Passed.{IsPassed}
use postgres_dbre.Regex.{search_in}
use postgres_dbre.Model.{Workflow, filename}
use postgres_dbre.Helpers.{sql_script}
use postgres_dbre.Render.{
  rule, bullets, numbered, label_parts, related_link, sql_header_lines, render_sql_header,
  render_sql_file,
}
use postgres_dbre.Render.Readme.{script_list, related, aurora_block, render_workflow_readme}
use postgres_dbre.Render.Scripts.{
  is_heavy, do_not_run, execution_guidance, investigation_steps, expected_output,
  severe_incident_guidance, render_scripts_readme,
}
use postgres_dbre.Writer.Workflows.{render_script}
use postgres_dbre.Header.{
  parse_sql_header, header_block, until, find_safety, value_after, first_line, missing_from,
  required_header_fields, known_safety_labels,
}
use postgres_dbre.Header.Strip.{
  sub, strip_sql_comments, strip_sql_comments_and_literals, block_comment, line_comment,
  line_length, dollar_quoted, single_quoted, end_of, tag_of, quote_end,
}
use postgres_dbre.Checks.Sql.{
  header_issues, declared_read_only, token_issues, placeholder_tokens, destructive_issues,
  forbidden_issues, read_only_forbidden_patterns, create_extension_re,
}
use postgres_dbre.Prelude.Dict.{lookup}
use postgres_dbre.Catalog.{explicit_catalog}
use postgres_dbre.Checks.Filenames.{numbers_of, script_number, read_digits, range}

-- Every script of the workflow is rendered to a text that passes, its READMEs have no placeholder,
-- and the numbers of its scripts' file names are 1 up to their count.
pub record IsAccepted (p : FilePath) (wf : Workflow) : Type 0 where
  pub scripts : All (λ s. IsPassed p (render_script wf s)) wf.scripts
  pub readme :
      token_issues p (universal_newlines (render_workflow_readme wf)) placeholder_tokens ≡ []
  pub scripts_readme :
      token_issues p (universal_newlines (render_scripts_readme wf)) placeholder_tokens ≡ []
  pub numbers : numbers_of (map filename wf.scripts) ≡ range 1 (length wf.scripts)

-- The slugs are those of the catalog for the category, in its order.
abbrev pub IsCatalogued : Text → List Workflow → Type 0
IsCatalogued category ws = lookup category explicit_catalog ≡ some (map (λ wf. wf.slug) ws)

-- Everything that rendering and the checks call.
unfoldable pub checked : Text → Text
unfolding destructive_issues forbidden_issues create_extension_re read_only_forbidden_patterns
    search_in strip_sql_comments_and_literals strip_sql_comments sub block_comment line_comment
    line_length dollar_quoted single_quoted end_of tag_of quote_end parse_sql_header header_block
    until find_safety value_after first_line missing_from required_header_fields declared_read_only
    render_sql_file render_sql_header sql_header_lines rule filename concat has_text starts_with
    after_prefix list_eq nat_eq is_space upper strip join to_lower header_issues placeholder_tokens
    render_script sql_script render_workflow_readme render_scripts_readme script_list related
    aurora_block is_heavy do_not_run execution_guidance investigation_steps expected_output
    severe_incident_guidance bullets numbered label_parts related_link str_of split_on numbers_of
    script_number read_digits lower known_safety_labels universal_newlines
checked content = content
