-- ===== src/Os/Steps/Kept.antt =====
-- What every run of the machine leaves alone.
use mathlib.Core.Path.{subst}
use postgres_dbre.Prelude.{
  ◌≡◌, ◌≢◌, Bool, sym, ap, ◌∙◌, ◌⊎◌, inl, inr, Option, none, some, ◌∷◌, nat_eq, list_eq,
}
use postgres_dbre.Prelude.Dict.{lookup, erase}
use postgres_dbre.Text.{Text}
use postgres_dbre.Os.{FilePath, Fs, Node, file, directory, symlink}
use postgres_dbre.Os.Laws.{same_path}
use postgres_dbre.Os.Steps.{
  IsWritable, nothing, text, bytes, Step, make, write, remove, remove_empty, Reach, here, next,
}
use postgres_dbre.Os.Steps.Tree.{insert_elsewhere, insert_same, erase_elsewhere, erase_same}

not-symlink : (opens : Bool) (o : Option Node) → IsWritable o → o ≢ some (symlink opens)
not-symlink opens none nothing e = cc
not-symlink opens (some n) (text t) e = cc
not-symlink opens (some n) (bytes t) e = cc

-- Where a link stands, no step is at its place.
Step-link :
    {Written : FilePath → Text → Type 0} {fs fs' : Fs} (p : FilePath) (opens : Bool)
    → Step Written fs fs'
    → lookup p fs ≡ some (symlink opens)
    → lookup p fs' ≡ some (symlink opens)
Step-link {fs = fs} p opens (make name dir above free e) at =
    ap (lookup p) e
    ∙ insert_elsewhere (name ∷ dir) directory fs p
        (λ same. cc (ap (λ q. lookup q fs) same, free, at))
    ∙ at
Step-link {fs = fs} p opens (write name dir content allowed above w e) at =
    ap (lookup p) e
    ∙ insert_elsewhere (name ∷ dir) (file content) fs p (λ same.
      not-symlink opens (lookup (name ∷ dir) fs) w (ap (λ q. lookup q fs) (sym same) ∙ at))
    ∙ at
Step-link {fs = fs} p opens (remove path content there e) at =
    ap (lookup p) e
    ∙ erase_elsewhere path fs p (λ same. cc (ap (λ q. lookup q fs) same, there, at))
    ∙ at
Step-link {fs = fs} p opens (remove_empty path there empty e) at =
    ap (lookup p) e
    ∙ erase_elsewhere path fs p (λ same. cc (ap (λ q. lookup q fs) same, there, at))
    ∙ at

pub Reach-link :
    {Written : FilePath → Text → Type 0} {fs fs' : Fs} (p : FilePath) (opens : Bool)
    → Reach Written fs fs'
    → lookup p fs ≡ some (symlink opens)
    → lookup p fs' ≡ some (symlink opens)
Reach-link p opens here at = at
Reach-link p opens (next r st) at = Step-link p opens st (Reach-link p opens r at)

-- A text stood at its place before, or it may be written there.
Step-origin :
    {Written : FilePath → Text → Type 0} {fs fs' : Fs} (p : FilePath) (t : Text)
    → Step Written fs fs'
    → lookup p fs' ≡ some (file t)
    → (lookup p fs ≡ some (file t)) ⊎ Written p t
Step-origin {fs = fs} p t (make name dir above free e) at = elim (same_path p (name ∷ dir)) [
  | yes same ↦ cc (at, ap (lookup p) e, same, insert_same (name ∷ dir) directory fs)
  | no differ ↦
      inl (sym (insert_elsewhere (name ∷ dir) directory fs p differ) ∙ (sym (ap (lookup p) e) ∙ at))
]
Step-origin {Written} {fs = fs} p t (write name dir content allowed above w e) at =
    elim (same_path p (name ∷ dir)) [
      | yes same ↦
          let content_is : content ≡ t =
            cc (at, ap (lookup p) e, same, insert_same (name ∷ dir) (file content) fs) in
          inr (subst (Written p) content_is (subst (λ q. Written q content) (sym same) allowed))
      | no differ ↦ inl (
          sym (insert_elsewhere (name ∷ dir) (file content) fs p differ)
          ∙ (sym (ap (lookup p) e) ∙ at))
    ]
Step-origin {fs = fs} p t (remove path content there e) at = elim (same_path p path) [
  | yes same ↦ cc (at, ap (lookup p) e, ap (λ q. lookup q (erase path fs)) same, erase_same path fs)
  | no differ ↦ inl (sym (erase_elsewhere path fs p differ) ∙ (sym (ap (lookup p) e) ∙ at))
]
Step-origin {fs = fs} p t (remove_empty path there empty e) at = elim (same_path p path) [
  | yes same ↦ cc (at, ap (lookup p) e, ap (λ q. lookup q (erase path fs)) same, erase_same path fs)
  | no differ ↦ inl (sym (erase_elsewhere path fs p differ) ∙ (sym (ap (lookup p) e) ∙ at))
]

pub Reach-origin :
    {Written : FilePath → Text → Type 0} {fs fs' : Fs} (p : FilePath) (t : Text)
    → Reach Written fs fs'
    → lookup p fs' ≡ some (file t)
    → (lookup p fs ≡ some (file t)) ⊎ Written p t
Reach-origin p t here at = inl at
Reach-origin p t (next r st) at = elim (Step-origin p t st at) [
  | inl before ↦ Reach-origin p t r before
  | inr allowed ↦ inr allowed
]

-- What may not be written at its place stood there before.
pub Reach-written :
    {Written : FilePath → Text → Type 0} {fs fs' : Fs} (p : FilePath) (t : Text)
    → ¬ Written p t
    → Reach Written fs fs'
    → lookup p fs' ≡ some (file t)
    → lookup p fs ≡ some (file t)
Reach-written p t foreign r at = elim (Reach-origin p t r at) [
  | inl before ↦ before
  | inr allowed ↦ absurd (foreign allowed)
]
