-- ===== src/Validate/MapErrors.antt =====
-- The issues of `check_repository_map` are all errors.
use postgres_dbre.Prelude.{
  ◌≡◌, refl, sym, inl, inr, Bool, true, Option, none, some, List, [], ◌∷◌, Bool-cases, nat_eq,
  list_eq, arith,
}
use postgres_dbre.Text.{Text, codes}
use postgres_dbre.Os.{Fs, ok, ok_injective, map_ok-ok, and_then-ok, is_file}
use postgres_dbre.Catalog.{all_expected_categories}
use postgres_dbre.Checks.{Issue, read_replaced}
use postgres_dbre.Checks.RepositoryMap.{
  search_map, split_lines, is_inner, starts_branch, entry_of, of_entry, category_counts_issues,
  map_line, map_lines, map_issues, behind_first, check_repository_map,
}
use postgres_dbre.Validate.Errors.{OnlyErrors, all-append}

counts-OnlyErrors :
    (categories relatives : List Text) → OnlyErrors (category_counts_issues categories relatives)
unfolding category_counts_issues
counts-OnlyErrors [] relatives = refl
counts-OnlyErrors (c ∷ cs) relatives =
    rw all-append (ground (arith, counts-OnlyErrors cs relatives))

module _ (outside : Text → Bool) (fs : Fs) where
  map_line-OnlyErrors :
      (line : Text) (r : List Issue × List Text) → map_line outside fs line ≡ ok r → OnlyErrors r.0
  unfolding map_line
  map_line-OnlyErrors line r h = elim (Bool-cases (is_inner line)) [
    | inl i ↦ rw (sym (ok_injective (rw i at h))) refl
    | inr i ↦ elim (Bool-cases (starts_branch line)) [
      | inl b ↦
          let (entry, read, same) =
            map_ok-ok (of_entry outside fs) (entry_of line) r (rw (i, b) at h) in
          rw (sym same) (ground arith)
      | inr b ↦ rw (sym (ok_injective (rw (i, b) at h))) refl
    ]
  ]

  map_lines-OnlyErrors :
      (lines : List Text) (r : List Issue × List Text)
      → map_lines outside fs lines ≡ ok r
      → OnlyErrors r.0
  unfolding map_lines
  map_lines-OnlyErrors [] r h = rw (sym (ok_injective h)) refl
  map_lines-OnlyErrors (line ∷ lines) r h =
      let (first, here, rest) = and_then-ok (map_line outside fs line) _ r h in
      let (later, read, same) = map_ok-ok _ (map_lines outside fs lines) r rest in
      rw
        (
          sym same,
          all-append,
          map_line-OnlyErrors line first here,
          map_lines-OnlyErrors lines later read,
        )
        refl

  map_issues-OnlyErrors :
      (group : Option Text) (found : List Issue)
      → map_issues outside fs group ≡ ok found
      → OnlyErrors found
  unfolding map_issues
  map_issues-OnlyErrors none found h = rw (sym (ok_injective h)) refl
  map_issues-OnlyErrors (some group) found h =
      let (r, read, same) =
        map_ok-ok _ (map_lines outside fs (behind_first (split_lines group))) found h in
      rw
        (
          sym same,
          all-append,
          map_lines-OnlyErrors _ r read,
          counts-OnlyErrors all_expected_categories r.1,
        )
        refl

  pub check_repository_map-OnlyErrors :
      (found : List Issue) → check_repository_map outside fs ≡ ok found → OnlyErrors found
  unfolding check_repository_map
  check_repository_map-OnlyErrors found h =
      elim (Bool-cases (is_file (codes "README.md" ∷ []) fs)) [
        | inl e ↦
            let (content, read, rest) =
              and_then-ok (read_replaced fs (codes "README.md" ∷ [])) _ found (rw e at h) in
            map_issues-OnlyErrors (search_map true content) found rest
        | inr e ↦ rw (sym (ok_injective (rw e at h))) refl
      ]
