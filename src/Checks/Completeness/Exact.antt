-- ===== src/Checks/Completeness/Exact.antt =====
-- When `check_catalog_completeness` is silent about a category.
use postgres_dbre.Prelude.{
  ◌≡◌, ◌↔◌, refl, sym, ap, ◌∙◌, inl, inr, true, false, not, ◌&&◌, List, [], ◌∷◌, map, arith,
  contains, nat_eq, list_eq, contains-sorted, contains-to_set, contains-keep_if, Bool-cases,
}
use postgres_dbre.Text.{Text}
use postgres_dbre.Checks.{Issue}
use postgres_dbre.Checks.Silence.{append-eq-nil}
use postgres_dbre.Checks.Completeness.{
  difference, category_issues, missing_workflow, extra_workflow,
}

contains-difference :
    (xs ys : List Text) (a : Text)
    → contains (difference xs ys) a ≡ (contains xs a && not (contains ys a))
unfolding difference
contains-difference xs ys a = rw (contains-sorted, contains-to_set, contains-keep_if)

nil_of_empty : (xs : List Text) → ((a : Text) → contains xs a ≡ false) → xs ≡ []
nil_of_empty [] h = refl
nil_of_empty (x ∷ xs) h = cc (h x, here)
  where
    here : contains (x ∷ xs) x ≡ true
    here = ground arith

map-eq-nil : (f : Text → Issue) (xs : List Text) → (map f xs ≡ []) ↔ (xs ≡ [])
map-eq-nil f [] = (λ h. refl, λ h. refl)
map-eq-nil f (x ∷ xs) = (λ h. cc, λ h. cc)

-- No name of the first list is missing from the second.
difference_nil :
    (xs ys : List Text)
    → (difference xs ys ≡ []) ↔ ((a : Text) → contains xs a ≡ true → contains ys a ≡ true)
difference_nil xs ys = (
  λ h a m.
      let none_left : (contains xs a && not (contains ys a)) ≡ false =
        sym (contains-difference xs ys a) ∙ ap (λ zs. contains zs a) h in
      ground arith,
  λ h. nil_of_empty (difference xs ys) (λ a. contains-difference xs ys a ∙ ground (arith, h a)),
)

both_ways :
    (expected existing : List Text) (a : Text)
    → (contains expected a ≡ true → contains existing a ≡ true)
    → (contains existing a ≡ true → contains expected a ≡ true)
    → contains expected a ≡ contains existing a
both_ways expected existing a h k = elim (Bool-cases (contains expected a)) [
  | inl e ↦ e ∙ sym (h e)
  | inr e ↦ elim (Bool-cases (contains existing a)) [ inl f ↦ cc (k f) | inr f ↦ e ∙ sym f ]
]

-- The check reports nothing about a category exactly if the names of its directories are those of
-- its workflows in the catalog, whatever their order.
pub category_issues_none_iff :
    (category : Text) (expected existing : List Text)
    → (category_issues category expected existing ≡ [])
      ↔ ((a : Text) → contains expected a ≡ contains existing a)
unfolding category_issues
category_issues_none_iff category expected existing =
    let parts =
      append-eq-nil (map (missing_workflow category) (difference expected existing))
        (map (extra_workflow category) (difference existing expected)) in
    let missing = map-eq-nil (missing_workflow category) (difference expected existing) in
    let extra = map-eq-nil (extra_workflow category) (difference existing expected) in
    let forth = difference_nil expected existing in
    let back = difference_nil existing expected in
    (
      λ h a.
          both_ways expected existing a (forth.0 (missing.0 (parts.0 h).0) a)
            (back.0 (extra.0 (parts.0 h).1) a),
      λ h. parts.1 (missing.1 (forth.1 (λ a m. sym (h a) ∙ m)), extra.1 (back.1 (λ a m. h a ∙ m))),
    )
