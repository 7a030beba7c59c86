-- ===== src/Validate/Root.antt =====
-- validate_repo.py: `find_repo_root`. `start` is resolved, and `has_git` tells whether `.git` exists
-- in a directory.
use postgres_dbre.Prelude.{
  ◌≤◌, ◌≡◌, refl, ap, sym, ◌∙◌, ◌⊎◌, inl, inr, Bool, true, false, Option, none, some, [], ◌∷◌, ◌++◌,
  length, if◌then◌else◌, arith, Bool-cases, length-append,
}
use postgres_dbre.Text.{Text}
use postgres_dbre.Os.{FilePath}

length-below : (start down dir : FilePath) → start ≡ down ++ dir → length dir ≤ length start
length-below start down dir at = omega (arith, ap (length {A = Text}) at, length-append down dir)

nil-below : (down dir : FilePath) → [] ≡ down ++ dir → [] ≡ dir
nil-below [] dir at = at
nil-below (name ∷ down) dir at = cc

cons-below :
    (name : Text) (parent down dir : FilePath)
    → name ∷ parent ≡ down ++ dir
    → (name ∷ parent ≡ dir) ⊎ ((rest : FilePath) × (parent ≡ rest ++ dir))
cons-below name parent [] dir at = inl at
cons-below name parent (other ∷ down) dir at = inr (down, cc)

module _ (has_git : FilePath → Bool) where
  -- The loop over `[current, *current.parents]`.
  unfoldable pub first_with_git : FilePath → Option FilePath
  first_with_git [] = if has_git [] then some [] else none
  first_with_git (name ∷ dir) =
      let above = first_with_git dir in if has_git (name ∷ dir) then some (name ∷ dir) else above

  abbrev pub or_start : FilePath → Option FilePath → FilePath
  or_start start none = start
  or_start start (some found) = found

  unfoldable pub find_repo_root : FilePath → FilePath
  find_repo_root start = or_start start (first_with_git start)

  -- A directory that holds `start`, has `.git`, and lies below every other such directory.
  pub record IsNearest (start root : FilePath) : Type 0 where
    pub inner : FilePath
    pub holds : start ≡ inner ++ root
    pub marked : has_git root ≡ true
    pub nearest :
        (down dir : FilePath) → start ≡ down ++ dir → has_git dir ≡ true → length dir ≤ length root

  -- No directory that holds `start` has `.git`.
  abbrev pub IsUnmarked : FilePath → Type 0
  IsUnmarked start = (down dir : FilePath) → start ≡ down ++ dir → has_git dir ≡ false

  first_with_git_cases :
      (start : FilePath)
      → ((root : FilePath) × (first_with_git start ≡ some root) × IsNearest start root)
        ⊎ ((first_with_git start ≡ none) × IsUnmarked start)
  unfolding first_with_git
  first_with_git_cases [] = elim (Bool-cases (has_git [])) [
    | inl e ↦ inl (
      [],
      rw e,
      record {
        inner = [];
        holds = refl;
        marked = e;
        nearest = λ down dir at m. length-below [] down dir at;
      },
    )
    | inr e ↦ inr (rw e, λ down dir at. ap has_git (sym (nil-below down dir at)) ∙ e)
  ]
  first_with_git_cases (name ∷ parent) = elim (Bool-cases (has_git (name ∷ parent))) [
    | inl e ↦ inl (
      name ∷ parent,
      rw e,
      record {
        inner = [];
        holds = refl;
        marked = e;
        nearest = λ down dir at m. length-below (name ∷ parent) down dir at;
      },
    )
    | inr e ↦ elim (first_with_git_cases parent) [
      | inl (root, found, above) ↦ inl (
        root,
        rw e found,
        record {
          inner = name ∷ above.inner;
          holds = ap (λ p. name ∷ p) above.holds;
          marked = above.marked;
          nearest = λ down dir at m. elim (cons-below name parent down dir at) [
            | inl same ↦ cc (ap has_git same, e, m)
            | inr (rest, at') ↦ above.nearest rest dir at' m
          ];
        },
      )
      | inr (missing, unmarked) ↦ inr (
        rw e missing,
        λ down dir at. elim (cons-below name parent down dir at) [
          | inl same ↦ ap has_git (sym same) ∙ e
          | inr (rest, at') ↦ unmarked rest dir at'
        ],
      )
    ]
  ]

  -- `find_repo_root` returns the nearest directory that has `.git`, of the start and the directories
  -- above it, and the start itself if none of them has.
  pub find_repo_root-IsNearest :
      (start : FilePath)
      → IsNearest start (find_repo_root start) ⊎ (IsUnmarked start × (find_repo_root start ≡ start))
  unfolding find_repo_root
  find_repo_root-IsNearest start = elim (first_with_git_cases start) [
    | inl (root, found, near) ↦ inl (rw found near)
    | inr (missing, unmarked) ↦ inr (unmarked, rw missing refl)
  ]
