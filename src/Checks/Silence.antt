-- ===== src/Checks/Silence.antt =====
-- When the loops of the checks report nothing.
use postgres_dbre.Prelude.{◌≡◌, ◌↔◌, refl, ap, List, [], ◌∷◌, ◌++◌, All}
use postgres_dbre.Os.{FilePath, Result, ok, err, and_then, map_ok, ok_injective}
use postgres_dbre.Checks.{Issue, collect_issues}

pub append-eq-nil : (xs ys : List Issue) → ((xs ++ ys) ≡ []) ↔ ((xs ≡ []) × (ys ≡ []))
append-eq-nil [] ys = (λ h. (refl, h), λ h. h.1)
append-eq-nil (x ∷ xs) ys = (λ h. cc, λ h. cc)

-- One round of `collect_issues` and the rest of the loop.
round_none :
    (found later : Result (List Issue))
    → (and_then found (λ issues. map_ok (λ more. issues ++ more) later) ≡ ok [])
      ↔ ((found ≡ ok []) × (later ≡ ok []))
round_none (ok xs) (ok ys) =
    let both = append-eq-nil xs ys in
    (
      λ h. let parts = both.0 (ok_injective h) in (ap ok parts.0, ap ok parts.1),
      λ h. ap ok (both.1 (ok_injective h.0, ok_injective h.1)),
    )
round_none (ok xs) (err e) = (λ h. cc, λ h. cc h.1)
round_none (err e) later = (λ h. cc, λ h. cc h.0)

pub collect_issues_none {ℓ} :
    {A : Type ℓ} (f : A → Result (List Issue)) (xs : List A)
    → (collect_issues f xs ≡ ok []) ↔ All (λ x. f x ≡ ok []) xs
unfolding collect_issues
collect_issues_none f [] = (λ h. tt, λ h. refl)
collect_issues_none f (x ∷ xs) =
    let round = round_none (f x) (collect_issues f xs) in
    let ih = collect_issues_none f xs in
    (λ h. ((round.0 h).0, ih.0 (round.0 h).1), λ h. round.1 (h.0, ih.1 h.1))

pub All-iff :
    {P Q : FilePath → Type 0} (xs : List FilePath)
    → ((p : FilePath) → P p ↔ Q p)
    → All P xs ↔ All Q xs
All-iff [] h = (λ a. tt, λ a. tt)
All-iff (x ∷ xs) h =
    let ih = All-iff xs h in (λ a. ((h x).0 a.0, ih.0 a.1), λ a. ((h x).1 a.0, ih.1 a.1))
