-- ===== src/Checks/RepositoryMap/Accurate.antt =====
-- What the silence of `check_repository_map` means.
use mathlib.Core.Path.{subst}
use postgres_dbre.Prelude.{
  ◌≡◌, ◌↔◌, ◌⊎◌, refl, sym, ap, ◌∙◌, inl, inr, Bool, true, false, Bool-cases, Option, none, some,
  List, [], ◌∷◌, ◌++◌, All, nat_beq, nat_beq_iff,
}
use postgres_dbre.Text.{Text, codes}
use postgres_dbre.Os.{Fs, ok, ok_injective, map_ok, map_ok-ok, and_then-ok, is_file}
use postgres_dbre.Catalog.{all_expected_categories}
use postgres_dbre.Checks.{read_replaced}
use postgres_dbre.Checks.Silence.{append-eq-nil}
use postgres_dbre.Checks.RepositoryMap.{
  search_map, split_lines, starts_branch, is_inner, entry_of, without_slash, count_in,
  category_counts_issues, entry_exists, of_entry, map_line, map_lines, behind_first, map_issues,
  check_repository_map,
}

category_counts_none :
    (categories relatives : List Text)
    → (category_counts_issues categories relatives ≡ [])
      ↔ All (λ category. count_in category relatives ≡ 1) categories
unfolding category_counts_issues
category_counts_none [] relatives = (λ h. tt, λ h. refl)
category_counts_none (category ∷ rest) relatives =
    let ih = category_counts_none rest relatives in
    let iff = nat_beq_iff (count_in category relatives) 1 in
    elim (Bool-cases (nat_beq (count_in category relatives) 1)) [
      | inl e ↦ rw e (λ h. (iff.0 e, ih.0 h), λ h. ih.1 h.1)
      | inr e ↦ rw e (λ h. cc, λ h. cc (iff.1 h.0, e))
    ]

module _ (outside : Text → Bool) (fs : Fs) where
  -- Lines of a map without fault, with the relative paths that they list: each line is blank or
  -- belongs to an entry above, or it is a branch with an entry that exists.
  pub data Lists : List Text → List Text → Type 0 where
    end : Lists [] []
    inner :
        {line : Text} {lines relatives : List Text}
        → is_inner line ≡ true
        → Lists lines relatives
        → Lists (line ∷ lines) relatives
    branch :
        {line entry : Text} {lines relatives : List Text}
        → is_inner line ≡ false
        → starts_branch line ≡ true
        → entry_of line ≡ ok entry
        → entry_exists outside fs (without_slash entry) ≡ true
        → Lists lines relatives
        → Lists (line ∷ lines) (without_slash entry ∷ relatives)

  Lists-sound :
      {lines relatives : List Text}
      → Lists lines relatives
      → map_lines outside fs lines ≡ ok ([], relatives)
  unfolding map_lines map_line
  Lists-sound end = refl
  Lists-sound (inner e more) = rw (e, Lists-sound more)
  Lists-sound (branch e b entry exists more) = rw (e, b, entry, exists, Lists-sound more)

  -- A line about which nothing is reported, with what it adds to the paths.
  abbrev IsBranch : Text → List Text → Type 0
  IsBranch line found =
      (entry : Text) × (starts_branch line ≡ true)
      × (entry_of line ≡ ok entry)
      × (entry_exists outside fs (without_slash entry) ≡ true)
      × (found ≡ without_slash entry ∷ [])

  entry_cases :
      (line : Text) (found : List Text)
      → starts_branch line ≡ true
      → map_ok (of_entry outside fs) (entry_of line) ≡ ok ([], found)
      → IsBranch line found
  entry_cases line found b h =
      let (entry, read, pair) = map_ok-ok (of_entry outside fs) (entry_of line) ([], found) h in
      elim (Bool-cases (entry_exists outside fs (without_slash entry))) [
        | inl e ↦ (entry, b, read, e, ap (λ p. p.1) (sym pair))
        | inr e ↦ cc (rw e at (ap (λ p. p.0) pair))
      ]

  line_cases :
      (line : Text) (found : List Text)
      → map_line outside fs line ≡ ok ([], found)
      → ((is_inner line ≡ true) × (found ≡ [])) ⊎ ((is_inner line ≡ false) × IsBranch line found)
  unfolding map_line
  line_cases line found h = elim (Bool-cases (is_inner line)) [
    | inl e ↦ inl (e, ap (λ p. p.1) (sym (ok_injective (rw e at h))))
    | inr e ↦ elim (Bool-cases (starts_branch line)) [
      | inl b ↦ inr (e, entry_cases line found b (rw (e, b) at h))
      | inr b ↦ cc (ap (λ p. p.0) (ok_injective (rw (e, b) at h)))
    ]
  ]

  Lists-line :
      (line : Text) (lines found others : List Text)
      → map_line outside fs line ≡ ok ([], found)
      → Lists lines others
      → Lists (line ∷ lines) (found ++ others)
  Lists-line line lines found others h more = elim (line_cases line found h) [
    | inl (e, nothing) ↦
        subst (λ f. Lists (line ∷ lines) (f ++ others)) (sym nothing) (inner e more)
    | inr (e, (entry, b, read, exists, one)) ↦
        subst (λ f. Lists (line ∷ lines) (f ++ others)) (sym one) (branch e b read exists more)
  ]

  Lists-complete :
      (lines relatives : List Text)
      → map_lines outside fs lines ≡ ok ([], relatives)
      → Lists lines relatives
  unfolding map_lines
  Lists-complete [] relatives h = subst (Lists []) (ap (λ p. p.1) (ok_injective h)) end
  Lists-complete (line ∷ lines) relatives h =
      let (one, here, rest) = and_then-ok (map_line outside fs line) _ ([], relatives) h in
      let (later, read, pair) = map_ok-ok _ (map_lines outside fs lines) ([], relatives) rest in
      let silent = (append-eq-nil one.0 later.0).0 (ap (λ p. p.0) pair) in
      subst (Lists (line ∷ lines)) (ap (λ p. p.1) pair) (
        Lists-line line lines one.1 later.1 (here ∙ ap (λ is. ok (is, one.1)) silent.0)
          (Lists-complete lines later.1 (read ∙ ap (λ is. ok (is, later.1)) silent.1)))

  -- A README with a map in which every branch exists and every category is listed once.
  pub record IsMapped : Type 0 where
    pub content : Text
    pub group : Text
    pub relatives : List Text
    pub present : is_file (codes "README.md" ∷ []) fs ≡ true
    pub readable : read_replaced fs (codes "README.md" ∷ []) ≡ ok content
    pub found : search_map true content ≡ some group
    pub listed : Lists (behind_first (split_lines group)) relatives
    pub once : All (λ category. count_in category relatives ≡ 1) all_expected_categories

  group_cases :
      (found : Option Text)
      → map_issues outside fs found ≡ ok []
      → (group : Text) × (found ≡ some group)
        × (relatives : List Text) × Lists (behind_first (split_lines group)) relatives
        × All (λ category. count_in category relatives ≡ 1) all_expected_categories
  unfolding map_issues
  group_cases none h = cc (ok_injective h)
  group_cases (some group) h =
      let (lines, read, pair) =
        map_ok-ok _ (map_lines outside fs (behind_first (split_lines group))) [] h in
      let silent =
        (append-eq-nil lines.0 (category_counts_issues all_expected_categories lines.1)).0 pair in
      (
        group,
        refl,
        lines.1,
        Lists-complete _ lines.1 (read ∙ ap (λ is. ok (is, lines.1)) silent.0),
        (category_counts_none all_expected_categories lines.1).0 silent.1,
      )

  mapped_group :
      (group : Text) (relatives : List Text)
      → Lists (behind_first (split_lines group)) relatives
      → All (λ category. count_in category relatives ≡ 1) all_expected_categories
      → map_issues outside fs (some group) ≡ ok []
  unfolding map_issues
  mapped_group group relatives listed once =
      rw (Lists-sound listed)
        (ap ok ((category_counts_none all_expected_categories relatives).1 once))

  -- The check returns and reports nothing exactly if the README of the root is a file that can be
  -- read, it has a repository map, every line of the map but the first is blank, belongs to the entry
  -- above it, or is a branch with an entry that exists, and every expected category is the path of
  -- exactly one of these entries.
  pub check_repository_map_none_iff : (check_repository_map outside fs ≡ ok []) ↔ IsMapped
  unfolding check_repository_map
  check_repository_map_none_iff = elim (Bool-cases (is_file (codes "README.md" ∷ []) fs)) [
    | inl e ↦ rw e (
      λ h.
          let (content, read, rest) =
            and_then-ok (read_replaced fs (codes "README.md" ∷ [])) _ [] h in
          let (group, found, relatives, listed, once) =
            group_cases (search_map true content) rest in
          record {
            content = content;
            group = group;
            relatives = relatives;
            present = e;
            readable = read;
            found = found;
            listed = listed;
            once = once;
          },
      λ m. rw (m.readable, m.found) (mapped_group m.group m.relatives m.listed m.once),
    )
    | inr e ↦ rw e (λ h. cc (ok_injective h), λ m. cc (m.present, e))
  ]
