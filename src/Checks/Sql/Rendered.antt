-- ===== src/Checks/Sql/Rendered.antt =====
-- What `check_sql_headers` says of the files that render.py writes.
use postgres_dbre.Prelude.{◌≡◌, ◌↔◌, refl, inl, inr, true, [], any, Bool-cases}
use postgres_dbre.Text.{strip, is_space, upper, starts_with}
use postgres_dbre.Os.{FilePath}
use postgres_dbre.Model.{Workflow, Script}
use postgres_dbre.Render.{render_sql_file}
use postgres_dbre.Header.{parse_sql_header, known_safety_labels}
use postgres_dbre.Header.RoundTrip.{IsPlain, parse_sql_header-render_sql_file}
use postgres_dbre.Checks.Sql.{header_issues}

-- For a script and workflow with plain fields, the header check reports nothing about the rendered
-- SQL file exactly if the upper case of the safety text, stripped of white space, begins with a
-- known label.
pub rendered_header_none_iff :
    (p : FilePath) (wf : Workflow) (s : Script)
    → IsPlain wf s
    → (header_issues p (parse_sql_header (render_sql_file wf s)) ≡ [])
      ↔ (any (starts_with (upper (strip is_space s.safety))) known_safety_labels ≡ true)
unfolding header_issues
rendered_header_none_iff p wf s plain =
    rw (parse_sql_header-render_sql_file wf s plain)
      (elim (Bool-cases (any (starts_with (upper (strip is_space s.safety))) known_safety_labels)) [
        | inl e ↦ rw e (λ h. refl, λ h. refl)
        | inr e ↦ rw e (λ h. cc, λ h. cc)
      ])
