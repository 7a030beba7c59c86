-- ===== src/Checks/Links/Silent.antt =====
-- What the silence of `check_markdown_links` means for the tree.
use postgres_dbre.Prelude.{◌≡◌, ◌↔◌, refl, ap, ◌∙◌, inl, inr, List, [], ◌∷◌, All, Bool-cases}
use postgres_dbre.Text.{Text, strip, is_space}
use postgres_dbre.Os.{FilePath, Fs, ok, map_ok, map_ok-ok}
use postgres_dbre.Checks.{read_replaced}
use postgres_dbre.Checks.Silence.{collect_issues_none, All-iff}
use postgres_dbre.Checks.Links.Followed.{IsFollowed, is_resolved-IsFollowed}
use postgres_dbre.Checks.Links.{
  find_links, is_resolved, link_issues, markdown_files, check_markdown_links,
}

module _ (root : FilePath) (fs : Fs) where
  -- A file that can be read, and all of whose links are followed to something.
  pub record IsLinked (p : FilePath) : Type 0 where
    pub content : Text
    pub readable : read_replaced fs p ≡ ok content
    pub resolved : All (λ link. IsFollowed root fs p (strip is_space link)) (find_links content)

  link_issues_none :
      (p : FilePath) (links : List Text)
      → (link_issues root fs p links ≡ [])
        ↔ All (λ link. IsFollowed root fs p (strip is_space link)) links
  unfolding link_issues
  link_issues_none p [] = (λ h. tt, λ h. refl)
  link_issues_none p (link ∷ links) =
      let ih = link_issues_none p links in
      let one = is_resolved-IsFollowed root fs p (strip is_space link) in
      elim (Bool-cases (is_resolved root fs p (strip is_space link))) [
        | inl e ↦ rw e (λ h. (one.0 e, ih.0 h), λ h. ih.1 h.1)
        | inr e ↦ rw e (λ h. cc, λ h. cc (one.1 h.0, e))
      ]

  IsLinked-iff :
      (p : FilePath)
      → (map_ok (λ content. link_issues root fs p (find_links content)) (read_replaced fs p)
          ≡ ok [])
        ↔ IsLinked p
  IsLinked-iff p = (
    λ h.
        let (text, read, silent) =
          map_ok-ok (λ t. link_issues root fs p (find_links t)) (read_replaced fs p) [] h in
        record {
          content = text;
          readable = read;
          resolved = (link_issues_none p (find_links text)).0 silent;
        },
    λ a.
        ap (map_ok (λ t. link_issues root fs p (find_links t))) a.readable
        ∙ ap ok ((link_issues_none p (find_links a.content)).1 a.resolved),
  )

-- The check returns and reports nothing exactly if every Markdown file below the root, `.git` aside,
-- can be read, and each of its links, stripped of white space, is empty, begins with `http://`,
-- `https://`, `mailto:` or `#`, or has before its first `#` a path that leads from the file's
-- directory (from the top if it is absolute) out of the tree or to a path that exists.
pub check_markdown_links_none_iff :
    (root : FilePath) (fs : Fs)
    → (check_markdown_links root fs ≡ ok []) ↔ All (IsLinked root fs) (markdown_files root fs)
unfolding check_markdown_links
check_markdown_links_none_iff root fs =
    let loop =
      collect_issues_none
        (λ p. map_ok (λ content. link_issues root fs p (find_links content)) (read_replaced fs p))
        (markdown_files root fs) in
    let each = All-iff (markdown_files root fs) (IsLinked-iff root fs) in
    (λ h. each.0 (loop.0 h), λ a. loop.1 (each.1 a))
