-- ===== src/Checks/Sql/Finished.antt =====
-- What the silence of `check_no_placeholders` means for the tree.
use postgres_dbre.Prelude.{
  ◌≡◌, ◌↔◌, refl, ap, ◌∙◌, inl, inr, not, List, [], ◌∷◌, ◌++◌, All, Bool-cases, keep_if,
}
use postgres_dbre.Text.{Text, codes}
use postgres_dbre.Os.{FilePath, Fs, ok, map_ok, map_ok-ok}
use postgres_dbre.Regex.{Regex, search_in}
use postgres_dbre.Checks.{rglob, read_replaced}
use postgres_dbre.Checks.Silence.{collect_issues_none, All-iff}
use postgres_dbre.Checks.Sql.{placeholder_tokens, is_excluded, token_issues, check_no_placeholders}
use postgres_dbre.Checks.Sql.Verdicts.{NoneFound}

-- A file that can be read and holds no placeholder marker.
pub record IsFinished (fs : Fs) (p : FilePath) : Type 0 where
  pub content : Text
  pub readable : read_replaced fs p ≡ ok content
  pub no_marker : NoneFound content placeholder_tokens

token_issues_none :
    (p : FilePath) (content : Text) (tokens : List (Regex × Text))
    → (token_issues p content tokens ≡ []) ↔ NoneFound content tokens
token_issues_none p content [] = (λ h. tt, λ h. refl)
token_issues_none p content ((pattern, label) ∷ tokens) =
    let ih = token_issues_none p content tokens in
    elim (Bool-cases (search_in pattern content)) [
      | inl e ↦ rw e (λ h. cc, λ h. cc)
      | inr e ↦ rw e (λ h. (refl, ih.0 h), λ h. ih.1 h.1)
    ]

IsFinished-iff :
    (fs : Fs) (p : FilePath)
    → (map_ok (λ content. token_issues p content placeholder_tokens) (read_replaced fs p) ≡ ok [])
      ↔ IsFinished fs p
IsFinished-iff fs p = (
  λ h.
      let (text, read, silent) =
        map_ok-ok (λ t. token_issues p t placeholder_tokens) (read_replaced fs p) [] h in
      record {
        content = text;
        readable = read;
        no_marker = (token_issues_none p text placeholder_tokens).0 silent;
      },
  λ a.
      ap (map_ok (λ t. token_issues p t placeholder_tokens)) a.readable
      ∙ ap ok ((token_issues_none p a.content placeholder_tokens).1 a.no_marker),
)

-- The check returns and reports nothing exactly if every SQL and Markdown file of the tree that is
-- not excluded can be read and holds none of the placeholder markers.
pub check_no_placeholders_none_iff :
    (root : FilePath) (fs : Fs)
    → (check_no_placeholders root fs ≡ ok [])
      ↔ All (IsFinished fs) (
          keep_if
            (λ p. not (is_excluded root p))
            (rglob (codes ".sql") fs ++ rglob (codes ".md") fs))
unfolding check_no_placeholders
check_no_placeholders_none_iff root fs =
    let files =
      keep_if (λ p. not (is_excluded root p)) (rglob (codes ".sql") fs ++ rglob (codes ".md") fs) in
    let loop =
      collect_issues_none
        (λ p. map_ok (λ content. token_issues p content placeholder_tokens) (read_replaced fs p))
        files in
    let each = All-iff files (IsFinished-iff fs) in (λ h. each.0 (loop.0 h), λ a. loop.1 (each.1 a))
