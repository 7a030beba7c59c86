-- ===== src/Checks/RepositoryMap.antt =====
-- checks.py: `check_repository_map`. An entry that is absolute or has `..` leads out of the tree,
-- and whether it exists is the argument `outside`.
pub mod Accurate
pub mod Blank
use postgres_dbre.Prelude.{
  ℕ, zero, suc, ◌+◌, ◌≡◌, refl, Bool, true, false, not, ◌&&◌, ◌||◌, Option, none, some, List, [],
  ◌∷◌, ◌++◌, map, contains, is_empty, nat_beq, leb, if◌then◌else◌, ◌==◌, nat_eq, list_eq,
}
use postgres_dbre.Text.{
  Text, codes, newline, is_space, lstrip, rstrip, strip, starts_with, after_prefix, concat, str_of,
}
use postgres_dbre.Os.{FilePath, Fs, Result, ok, err, map_ok, and_then, is_file, exists, index_error}
use postgres_dbre.Writer.{names, is_absolute, path_of}
use postgres_dbre.Catalog.{all_expected_categories}
use postgres_dbre.Header.{until, before_of}
use postgres_dbre.Checks.{Issue, error, read_replaced, when}
use postgres_dbre.Checks.Links.{span_until, then_after}

-- `_REPOSITORY_MAP_RE` at the start of a line: the group. White space is no part of a fence, so that
-- each `\s*` takes all of it.
abbrev heading : Text
heading = codes "## 13. Repository map (visual navigation)"

unfoldable pub map_here : Text → Option Text
map_here s = then_after (after_prefix heading s) λ t.
    then_after (after_prefix (codes "```text") (lstrip is_space t))
      λ u. before_of (until (codes "```") (lstrip is_space u))

abbrev or_else : Option Text → Option Text → Option Text
or_else none later = later
or_else (some t) later = some t

-- `search`: `^` holds at the start and behind each newline.
unfoldable pub search_map : Bool → Text → Option Text
search_map line_start [] = none
search_map line_start (c ∷ s) =
    let later = search_map (nat_beq c newline) s in
    if line_start then or_else (map_here (c ∷ s)) later else later

-- `str.splitlines`
abbrev pub is_line_break : ℕ → Bool
is_line_break c =
    (leb 10 c && leb c 13)
    || (leb 28 c && leb c 30)
    || nat_beq c 0x85
    || nat_beq c 0x2028
    || nat_beq c 0x2029

abbrev cons_line : ℕ → List Text → List Text
cons_line c [] = (c ∷ []) ∷ []
cons_line c (line ∷ lines) = (c ∷ line) ∷ lines

unfoldable pub split_lines : Text → List Text
split_lines [] = []
split_lines (c ∷ []) = if is_line_break c then [] ∷ [] else (c ∷ []) ∷ []
split_lines (c ∷ d ∷ s) =
    let both = [] ∷ split_lines s in
    let rest = split_lines (d ∷ s) in
    if nat_beq c b'\r' && nat_beq d newline
    then both
    else if is_line_break c
    then [] ∷ rest
    else cons_line c rest

-- `line[4:]`
abbrev pub from_fourth : Text → Text
from_fourth (a ∷ b ∷ c ∷ d ∷ s) = s
from_fourth _ = []

-- `line.startswith(_TREE_BRANCH_PREFIXES)`
unfoldable pub starts_branch : Text → Bool
starts_branch line =
    starts_with line (0x251C ∷ 0x2500 ∷ 0x2500 ∷ b' ' ∷ [])
    || starts_with line (0x2514 ∷ 0x2500 ∷ 0x2500 ∷ b' ' ∷ [])

-- Lines that are blank or belong to an entry above.
unfoldable pub is_inner : Text → Bool
is_inner line = is_empty (strip is_space line) || starts_with line (0x2502 ∷ [])

-- `line[4:].split()[0]`
abbrev pub first_or_raise : Text → Result Text
first_or_raise [] = err index_error
first_or_raise (c ∷ word) = ok (c ∷ word)

unfoldable pub entry_of : Text → Result Text
entry_of line = first_or_raise (span_until is_space (lstrip is_space (from_fourth line))).0

unfoldable pub without_slash : Text → Text
without_slash entry = rstrip (λ c. nat_beq c b'/') entry

abbrev pub map_issue : Text → Issue
map_issue message = record {
  severity = error;
  check = codes "repository-map";
  path = codes "README.md";
  message = message;
}

-- How often a category is the relative path of an entry.
unfoldable pub count_in : Text → List Text → ℕ
count_in category [] = 0
count_in category (relative ∷ rest) =
    let more = count_in category rest in if relative == category then suc more else more

abbrev pub count_issue : Text → ℕ → Issue
count_issue category count = map_issue (
    concat (
      codes "category '"
      ∷ category
      ∷ codes "/' must appear exactly once as a top-level map path (found "
      ∷ str_of count
      ∷ codes ")"
      ∷ []))

unfoldable pub category_counts_issues : List Text → List Text → List Issue
category_counts_issues [] relatives = []
category_counts_issues (category ∷ rest) relatives =
    let count = count_in category relatives in
    when (not (nat_beq count 1)) (count_issue category count)
    ++ category_counts_issues rest relatives

-- The lines of the map; the first one is skipped.
abbrev pub behind_first : List Text → List Text
behind_first [] = []
behind_first (line ∷ lines) = lines

module _ (outside : Text → Bool) (fs : Fs) where
  -- `(root / relative).exists()`
  unfoldable pub entry_exists : Text → Bool
  entry_exists relative =
      if is_absolute relative || contains (names relative) (codes "..")
      then outside relative
      else exists (path_of relative) fs

  abbrev entry_issue : Text → Issue
  entry_issue entry =
      map_issue (concat (codes "top-level map path does not exist: '" ∷ entry ∷ codes "'" ∷ []))

  abbrev pub synthetic_issue : Text → Issue
  synthetic_issue line = map_issue (
      concat (
        codes "unlinked synthetic root entry in repository map: '"
        ∷ strip is_space line
        ∷ codes "'"
        ∷ []))

  -- One line behind the first: its issues, and the relative paths that it adds to those counted.
  abbrev pub of_entry : Text → List Issue × List Text
  of_entry entry = (
    when (not (entry_exists (without_slash entry))) (entry_issue entry),
    without_slash entry ∷ [],
  )

  unfoldable pub map_line : Text → Result (List Issue × List Text)
  map_line line =
      if is_inner line
      then ok ([], [])
      else if starts_branch line
      then map_ok of_entry (entry_of line)
      else ok (synthetic_issue line ∷ [], [])

  unfoldable pub map_lines : List Text → Result (List Issue × List Text)
  map_lines [] = ok ([], [])
  map_lines (line ∷ lines) =
      let later = map_lines lines in
      and_then (map_line line)
        λ (issues, found). map_ok (λ (more, others). (issues ++ more, found ++ others)) later

  abbrev with_counts : List Issue × List Text → List Issue
  with_counts (issues, relatives) =
      issues ++ category_counts_issues all_expected_categories relatives

  unfoldable pub map_issues : Option Text → Result (List Issue)
  map_issues none =
      ok (map_issue (codes "section 13 must contain a fenced text repository map") ∷ [])
  map_issues (some group) = map_ok with_counts (map_lines (behind_first (split_lines group)))

  unfoldable pub check_repository_map : Result (List Issue)
  check_repository_map =
      if is_file (codes "README.md" ∷ []) fs
      then and_then (read_replaced fs (codes "README.md" ∷ []))
          (λ content. map_issues (search_map true content))
      else ok (map_issue (codes "root README does not exist") ∷ [])

split_lines_test : split_lines (codes "a\r\nb\n\nc") ≡ codes "a" ∷ codes "b" ∷ [] ∷ codes "c" ∷ []
unfolding split_lines
split_lines_test = refl
