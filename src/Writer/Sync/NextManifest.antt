-- ===== src/Writer/Sync/NextManifest.antt =====
-- The ownership set that `sync_managed_artifacts` records.
use postgres_dbre.Prelude.{
  ◌≡◌, refl, ◌∙◌, ap, inl, inr, true, false, ◌||◌, Option, none, some, List, [], ◌∷◌, ◌++◌, arith,
  if◌then◌else◌, ◌==◌, contains, nat_eq, list_eq, contains-sorted, contains-to_set, Option-cases,
  Bool-cases,
}
use postgres_dbre.Prelude.Dict.{
  lookup, lookup-nil, keys, lookup-insert, lookup-erase, contains-keys-some,
}
use postgres_dbre.Text.{Text}
use postgres_dbre.Writer.Manifest.{Files, Categories, sort_items}
use postgres_dbre.Writer.Sync.{
  files_of, or_empty, update_category, update_categories, next_categories, categories_to_sync,
}

same_text : Discrete Text
same_text = list_eq.dec

-- A category is recorded if it has files, in sorted order.
abbrev pub recorded : Files → Option Files
recorded [] = none
recorded (entry ∷ more) = some (sort_items (entry ∷ more))

lookup-update_category :
    (category : Text) (files : Files) (next : Categories) (c : Text)
    → lookup c (update_category category files next)
      ≡ (if c == category then recorded files else lookup c next)
lookup-update_category category [] next c = rw lookup-erase
lookup-update_category category (entry ∷ more) next c = rw lookup-insert

lookup-update_categories :
    (generated : Categories) (categories : List Text) (next : Categories) (c : Text)
    → lookup c (update_categories generated categories next)
      ≡ (if contains categories c then recorded (files_of c generated) else lookup c next)
unfolding update_categories
lookup-update_categories generated [] next c = refl
lookup-update_categories generated (category ∷ rest) next c =
    lookup-update_categories generated rest
      (update_category category (files_of category generated) next) c
    ∙ rw lookup-update_category (elim (same_text c category) [
      | yes e ↦ ground (arith, ap (λ k. recorded (files_of k generated)) e)
      | no differ ↦ ground arith
    ])

files_of-absent :
    (generated : Categories) (c : Text)
    → contains (keys generated) c ≡ false
    → recorded (files_of c generated) ≡ none
files_of-absent generated c h = elim (Option-cases (lookup c generated)) [
  | inl e ↦ ap (λ o. recorded (or_empty o)) e
  | inr (files, e) ↦ cc (h, contains-keys-some generated c files e)
]

contains-append :
    (xs ys : List Text) (a : Text) → contains (xs ++ ys) a ≡ (contains xs a || contains ys a)
contains-append [] ys a = refl
contains-append (x ∷ xs) ys a = ground (arith, contains-append xs ys a)

-- The ownership set of a full build has every category that has generated files, with just those
-- files sorted by path, and no other category.
pub next_categories_full :
    (previous generated : Categories) (selected : List Text) (c : Text)
    → lookup c (
        next_categories previous generated
          (categories_to_sync previous generated selected true)
          true)
      ≡ recorded (files_of c generated)
unfolding next_categories categories_to_sync
next_categories_full previous generated selected c =
    rw (lookup-update_categories, contains-sorted, contains-to_set, contains-append)
      (elim (Bool-cases (contains (keys generated) c)) [
        | inl e ↦ rw (lookup-nil, e) (ground arith)
        | inr e ↦ rw (lookup-nil, files_of-absent generated c e) (ground arith)
      ])

-- The ownership set of a partial build has the selected categories as that of a full one has them,
-- and for every other category what the previous manifest records.
pub next_categories_partial :
    (previous generated : Categories) (selected : List Text) (c : Text)
    → lookup c (
        next_categories previous generated
          (categories_to_sync previous generated selected false)
          false)
      ≡ (if contains selected c then recorded (files_of c generated) else lookup c previous)
unfolding next_categories categories_to_sync
next_categories_partial previous generated selected c =
    rw (lookup-update_categories, contains-sorted, contains-to_set)
