-- ===== src/Checks/Filenames/Sequence.antt =====
-- When `check_sequential_filenames` is silent about the numbers of a directory.
use postgres_dbre.Prelude.{
  ℕ, zero, suc, ◌+◌, ◌<◌, ◌≡◌, ◌↔◌, refl, sym, ap, ◌∙◌, Bool, true, false, not, List, [], ◌∷◌,
  contains, length, leb, if◌then◌else◌, ◌==◌, ==_iff, nat_eq, list_eq, sorted, to_set,
  insert_sorted, arith,
}
use postgres_dbre.Os.{FilePath}
use postgres_dbre.Checks.{Issue, when}
use postgres_dbre.Checks.Filenames.{range, sort_numbers, has_duplicates, number_issues}

length-insert_sorted : (n : ℕ) (ns : List ℕ) → length (insert_sorted leb n ns) ≡ suc (length ns)
unfolding insert_sorted
length-insert_sorted n [] = refl
length-insert_sorted n (m ∷ ns) = ground (arith, length-insert_sorted n ns)

length-sort : (ns : List ℕ) → length (sort_numbers ns) ≡ length ns
unfolding sorted
length-sort [] = refl
length-sort (n ∷ ns) = length-insert_sorted n (sort_numbers ns) ∙ ap suc (length-sort ns)

length-range : (start count : ℕ) → length (range start count) ≡ count
length-range start zero = refl
length-range start (suc count) = ap suc (length-range (start + 1) count)

not-in-range : (a start count : ℕ) → a < start → contains (range start count) a ≡ false
not-in-range a start zero h = refl
not-in-range a start (suc count) h = ground (arith, not-in-range a (start + 1) count)

to_set-range : (start count : ℕ) → to_set (range start count) ≡ range start count
unfolding to_set
to_set-range start zero = refl
to_set-range start (suc count) =
    rw (to_set-range (start + 1) count, not-in-range start (start + 1) count (omega arith))

range_no_duplicates : (count : ℕ) → has_duplicates (range 1 count) ≡ false
range_no_duplicates count = rw (to_set-range 1 count) (ground arith)

silent_iff :
    (duplicates same : Bool) (x y : Issue)
    → ((if duplicates then x ∷ [] else when (not same) y) ≡ [])
      ↔ ((duplicates ≡ false) × (same ≡ true))
silent_iff duplicates same x y = ground arith

sort_nil : sort_numbers [] ≡ []
unfolding sorted
sort_nil = refl

-- The check reports nothing about the numbers of the scripts of a directory exactly if they
-- are, sorted, 1, 2, ... up to their count.
pub number_issues_none_iff :
    (dir : FilePath) (ns : List ℕ)
    → (number_issues dir ns ≡ []) ↔ (sort_numbers ns ≡ range 1 (length ns))
unfolding number_issues
number_issues_none_iff dir [] = (λ h. sort_nil, λ h. refl)
number_issues_none_iff dir (n ∷ ns) =
    let S = sort_numbers (n ∷ ns) in
    let silent = silent_iff (has_duplicates S) (S == range 1 (length S)) _ _ in
    let count = length-sort (n ∷ ns) in
    (
      λ h. (==_iff S (range 1 (length S))).0 (silent.0 h).1 ∙ ap (range 1) count,
      λ h. silent.1 (
        ap has_duplicates h ∙ range_no_duplicates (length (n ∷ ns)),
        (==_iff S (range 1 (length S))).1 (h ∙ ap (range 1) (sym count)),
      ),
    )
