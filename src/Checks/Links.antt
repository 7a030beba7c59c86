-- ===== src/Checks/Links.antt =====
-- checks.py: `check_markdown_links`. A path that leads through a symbolic link leaves the tree.
pub mod Found
pub mod Rendered
pub mod Followed
pub mod Silent
use postgres_dbre.Prelude.{
  ℕ, zero, suc, ◌+◌, ◌≡◌, refl, Bool, true, false, not, ◌||◌, Option, none, some, List, [], ◌∷◌,
  ◌++◌, any, keep_if, contains, length, is_empty, nat_beq, if◌then◌else◌, ◌==◌, nat_eq, list_eq,
  sorted,
}
use postgres_dbre.Prelude.Dict.{lookup}
use postgres_dbre.Text.{Text, codes, is_space, lstrip, strip, starts_with, concat}
use postgres_dbre.Os.{FilePath, Fs, Node, symlink, Result, map_ok, exists}
use postgres_dbre.Writer.{names, is_absolute}
use postgres_dbre.Checks.{
  Issue, warning, rel, parent_of, path_le, rglob, read_replaced, collect_issues, when,
}
use postgres_dbre.Checks.Sql.{file_issue}

-- What stands before and after the first character of which the test holds.
abbrev pub cons_left : ℕ → Text × Text → Text × Text
cons_left c (before, rest) = (c ∷ before, rest)

unfoldable pub span_until : (ℕ → Bool) → Text → Text × Text
span_until stop [] = ([], [])
span_until stop (c ∷ s) =
    let later = cons_left c (span_until stop s) in if stop c then ([], c ∷ s) else later

-- The rest after one expected character.
abbrev pub after_char : ℕ → Text → Option Text
after_char c [] = none
after_char c (d ∷ s) = if nat_beq c d then some s else none

abbrev pub then_after : Option Text → (Text → Option Text) → Option Text
then_after none f = none
then_after (some s) f = f s

-- `(?:\s+"[^"]*")?\)`: what follows. The group before it ends at a `)`, at white space, or at the
-- end of the text, so that the title is tried exactly at white space.
abbrev pub is_quote : ℕ → Bool
is_quote c = nat_beq c b'"'

unfoldable pub after_title : Text → Option Text
after_title s =
    then_after (after_char b'"' (lstrip is_space s))
      λ inner. then_after (after_char b'"' (span_until is_quote inner).1) (after_char b')')

unfoldable pub after_target : Text → Option Text
after_target [] = none
after_target (c ∷ s) = if nat_beq c b')' then some s else if is_space c then after_title s else none

-- `([^)\s]+)` and what follows it.
abbrev pub ends_target : ℕ → Bool
ends_target c = nat_beq c b')' || is_space c

abbrev pub with_target : Text → Option Text → Option (Text × Text)
with_target [] rest = none
with_target (c ∷ target) none = none
with_target (c ∷ target) (some rest) = some (c ∷ target, rest)

abbrev pub link_target : Option Text → Option (Text × Text)
link_target none = none
link_target (some s) =
    let (target, rest) = span_until ends_target s in with_target target (after_target rest)

-- `_MD_LINK_RE` at one place: the group and what follows the match.
abbrev pub is_closing : ℕ → Bool
is_closing c = nat_beq c b']'

unfoldable pub match_link : Text → Option (Text × Text)
match_link s = link_target (
    then_after (after_char b'[' s)
      λ inner. then_after (after_char b']' (span_until is_closing inner).1) (after_char b'('))

-- `_MD_LINK_RE.findall`: the groups of the matches, of which none overlap. The rest after a match
-- is shorter, so that there are no more rounds than characters.
unfoldable pub find_links_from : ℕ → Text → List Text
find_links_from zero s = []
find_links_from (suc fuel) [] = []
find_links_from (suc fuel) (c ∷ s) =
    let later = find_links_from fuel s in
    elim (match_link (c ∷ s)) [
      | none ↦ later
      | some (target, rest) ↦ target ∷ find_links_from fuel rest
    ]

unfoldable pub find_links : Text → List Text
unfolding find_links_from match_link
find_links s = find_links_from (length s) s

-- Links that are not looked up.
unfoldable pub is_external : Text → Bool
is_external target =
    is_empty target
    || starts_with target (codes "http://")
    || starts_with target (codes "https://")
    || starts_with target (codes "mailto:")
    || starts_with target (codes "#")

-- `target.split("#", 1)[0]`
abbrev pub is_hash : ℕ → Bool
is_hash c = nat_beq c b'#'

unfoldable pub path_part : Text → Text
path_part target = (span_until is_hash target).0

-- The part of an absolute path below the root.
unfoldable pub below : FilePath → FilePath → Option FilePath
below root [] = if is_empty root then some [] else none
below root (name ∷ dir) =
    let later = below root dir in
    if (name ∷ dir) == root then some [] else elim later [ none ↦ none | some p ↦ some (name ∷ p) ]

abbrev pub is_link : Option Node → Bool
is_link (some (symlink _)) = true
is_link _ = false

abbrev pub leads_out : Fs → Option FilePath → Bool
leads_out fs none = false
leads_out fs (some p) = is_link (lookup p fs)

module _ (root : FilePath) (fs : Fs) where
  -- `Path.resolve` from an absolute directory on, name by name; none where a link leaves the tree.
  unfoldable pub resolve : FilePath → List Text → Option FilePath
  resolve dir [] = some dir
  resolve dir (name ∷ rest) =
      let up = resolve (parent_of dir) rest in
      let down = resolve (name ∷ dir) rest in
      if name == codes ".."
      then up
      else if leads_out fs (below root (name ∷ dir))
      then none
      else down

  -- `(md_file.parent / part).resolve()`
  unfoldable pub resolve_link : FilePath → Text → Option FilePath
  resolve_link md_file part =
      resolve (if is_absolute part then [] else parent_of md_file ++ root) (names part)

  -- `resolved.relative_to(root)` fails, or `resolved.exists()`.
  abbrev pub below_root : Option FilePath → Option FilePath
  below_root none = none
  below_root (some p) = below root p

  abbrev pub is_present : Option FilePath → Bool
  is_present none = true
  is_present (some p) = exists p fs

  unfoldable pub is_resolved : FilePath → Text → Bool
  is_resolved md_file target =
      is_external target
      || is_empty (path_part target)
      || is_present (below_root (resolve_link md_file (path_part target)))

  abbrev link_issue : FilePath → Text → Issue
  link_issue md_file target =
      file_issue warning (codes "markdown-links") md_file
        (concat (codes "link target does not exist: '" ∷ target ∷ codes "'" ∷ []))

  unfoldable pub link_issues : FilePath → List Text → List Issue
  link_issues md_file [] = []
  link_issues md_file (link ∷ links) =
      let target = strip is_space link in
      when (not (is_resolved md_file target)) (link_issue md_file target)
      ++ link_issues md_file links

  unfoldable pub markdown_files : List FilePath
  markdown_files =
      keep_if (λ p. not (contains (p ++ root) (codes ".git")))
        (sorted path_le (rglob (codes ".md") fs))

unfoldable pub check_markdown_links : FilePath → Fs → Result (List Issue)
check_markdown_links root fs =
    collect_issues
      (λ p. map_ok (λ content. link_issues root fs p (find_links content)) (read_replaced fs p))
      (markdown_files root fs)

find_links_test :
    find_links (codes "a [b](c.md) [d [e](f \"g\") [h](i j) ![k](l#m)")
    ≡ codes "c.md" ∷ codes "f" ∷ codes "l#m" ∷ []
unfolding find_links after_target after_title span_until lstrip is_space
find_links_test = refl
