-- ===== src/Checks/Filenames.antt =====
-- checks.py: `check_sequential_filenames`.
pub mod Sequence
use postgres_dbre.Prelude.{
  ℕ, zero, suc, ◌+◌, ◌-◌, ◌*◌, ◌≡◌, refl, Bool, true, false, not, ◌&&◌, ◌||◌, Option, none, some,
  List, [], ◌∷◌, ◌++◌, map, reverse, any, keep_if, contains, length, is_empty, leb, ltb, nat_beq,
  if◌then◌else◌, ◌==◌, nat_eq, list_eq, sorted, to_set,
}
use postgres_dbre.Text.{Text, codes, newline, lower, concat, join, str_of, starts_with}
use postgres_dbre.Os.{FilePath, Fs, is_file}
use postgres_dbre.Checks.{
  Issue, error, warning, rel, name_of, when, entries_of, discover_scripts_dirs,
}

abbrev pub is_digit : ℕ → Bool
is_digit c = leb b'0' c && leb c b'9'

-- The digits at the start, read as a number, and what follows them.
unfoldable pub read_digits : ℕ → Text → ℕ × Text
read_digits n [] = (n, [])
read_digits n (c ∷ s) =
    let more = read_digits (n * 10 + (c - b'0')) s in if is_digit c then more else (n, c ∷ s)

abbrev pub starts_digit : Text → Bool
starts_digit [] = false
starts_digit (c ∷ _) = is_digit c

-- `$` matches before one newline at the end, too.
abbrev without_last_newline : Text → Text
without_last_newline [] = []
without_last_newline (c ∷ s) = if nat_beq c newline then s else c ∷ s

-- `.+\.(sql|md)$` of the text that is given reversed, case ignored.
abbrev dotted : Text → Bool
dotted reversed =
    (starts_with reversed (codes "lqs.") && ltb 4 (length reversed))
    || (starts_with reversed (codes "dm.") && ltb 3 (length reversed))

abbrev pub is_description : Text → Bool
is_description s =
    let body = without_last_newline (reverse (lower s)) in
    dotted body && not (contains body newline)

abbrev pub numbered : ℕ × Text → Option ℕ
numbered (n, []) = none
numbered (n, c ∷ s) = if nat_beq c b'_' && is_description s then some n else none

-- `SCRIPT_FILENAME_RE.match(name)`: the number.
unfoldable pub script_number : Text → Option ℕ
script_number name = if starts_digit name then numbered (read_digits 0 name) else none

-- The numbers, and the names that do not follow the convention.
abbrev is_counted : Fs → FilePath → Bool
is_counted fs entry = is_file entry fs && not (lower (name_of entry) == codes "readme.md")

abbrev pub script_names : Fs → FilePath → List Text
script_names fs scripts_dir = map name_of (keep_if (is_counted fs) (entries_of scripts_dir fs))

abbrev add_number : Option ℕ → List ℕ → List ℕ
add_number none ns = ns
add_number (some n) ns = n ∷ ns

unfoldable pub numbers_of : List Text → List ℕ
numbers_of [] = []
numbers_of (name ∷ names) = add_number (script_number name) (numbers_of names)

abbrev is_stray : Text → Bool
is_stray name = elim (script_number name) [ none ↦ true | some _ ↦ false ]

-- `str` of a list of numbers.
unfoldable pub repr_list : List ℕ → Text
repr_list ns = concat (codes "[" ∷ join (codes ", ") (map str_of ns) ∷ codes "]" ∷ [])

abbrev occurrences : ℕ → List ℕ → ℕ
occurrences n [] = 0
occurrences n (m ∷ ms) = let rest = occurrences n ms in if nat_beq n m then suc rest else rest

-- `list(range(start, start + count))`
abbrev pub range : ℕ → ℕ → List ℕ
range start zero = []
range start (suc count) = start ∷ range (start + 1) count

abbrev pub sort_numbers : List ℕ → List ℕ
sort_numbers = sorted leb

abbrev pub has_duplicates : List ℕ → Bool
has_duplicates ns = not (nat_beq (length (to_set ns)) (length ns))

abbrev filename_issue : FilePath → Text → Issue
filename_issue scripts_dir message = record {
  severity = error;
  check = codes "sequential-filenames";
  path = rel scripts_dir;
  message = message;
}

abbrev stray_issue : FilePath → Text → Issue
stray_issue scripts_dir stray =
    record (filename_issue scripts_dir (
      concat (
        codes "file '"
        ∷ stray
        ∷ codes "' does not follow the NN_description.(sql|md) naming convention"
        ∷ []))) { severity = warning }

-- The issues about the numbers of one directory, from the sorted ones.
unfoldable pub number_issues : FilePath → List ℕ → List Issue
number_issues scripts_dir [] = []
number_issues scripts_dir (n ∷ ns) =
    let numbers_sorted = sort_numbers (n ∷ ns) in
    let expected = range 1 (length numbers_sorted) in
    if has_duplicates numbers_sorted
    then filename_issue scripts_dir (
        codes "duplicate script number(s): "
        ++ repr_list (
            sort_numbers
              (to_set (keep_if (λ m. ltb 1 (occurrences m numbers_sorted)) numbers_sorted))))
      ∷ []
    else when (not (numbers_sorted == expected)) (
        filename_issue scripts_dir (
          concat (
            codes "script numbering is not sequential starting at 1 (found "
            ∷ repr_list numbers_sorted
            ∷ codes ", expected "
            ∷ repr_list expected
            ∷ codes ")"
            ∷ [])))

unfoldable pub scripts_dir_issues : Fs → FilePath → List Issue
scripts_dir_issues fs scripts_dir =
    let found = script_names fs scripts_dir in
    map (stray_issue scripts_dir) (keep_if is_stray found)
    ++ number_issues scripts_dir (numbers_of found)

abbrev pub all_dirs_issues : Fs → List FilePath → List Issue
all_dirs_issues fs [] = []
all_dirs_issues fs (dir ∷ dirs) = scripts_dir_issues fs dir ++ all_dirs_issues fs dirs

unfoldable pub check_sequential_filenames : FilePath → Fs → List Issue
check_sequential_filenames root fs = all_dirs_issues fs (discover_scripts_dirs root fs)

script_number_test : script_number (codes "012_x.SQL") ≡ some 12
unfolding script_number read_digits lower starts_with list_eq nat_eq
script_number_test = refl
