-- ===== src/Os/Laws.antt =====
-- What removing entries from the file tree can do to it.
use mathlib.Core.Path.{subst₂}
use mathlib.Core.Option.{some-injective}
use postgres_dbre.Prelude.{
  ap, ◌≡◌, ◌≢◌, refl, ◌⊎◌, inl, inr, Option, none, some, [], ◌∷◌, arith, nat_eq, list_eq, sym, ◌∙◌,
  any, Option-cases, Bool-cases, true, false,
}
use postgres_dbre.Prelude.Dict.{lookup, erase, lookup-erase, lookup-insert, keys}
use postgres_dbre.Text.{Text}
use postgres_dbre.Os.{
  FilePath, Fs, Node, is_child_of, file, raw, directory, symlink, Io, Result, continue, ◌>>=◌, ok,
  err, rmdir, put_text, open_and_write,
}

pub same_path : Discrete FilePath
same_path = list_eq.dec

-- An entry that may have been removed: a directory, or a file of which `Removable` holds.
abbrev pub Gone : (FilePath → Text → Type 0) → FilePath → Node → Type 0
Gone Removable p directory = Unit
Gone Removable p (file content) = Removable p content
Gone Removable p _ = ⊥

Gone-subst :
    (Removable : FilePath → Text → Type 0) {p q : FilePath} {m n : Node}
    → p ≡ q
    → m ≡ n
    → Gone Removable q m
    → Gone Removable p n
Gone-subst Removable e k = subst₂ (Gone Removable) (sym e) k

-- From `fs` to `fs'` entries are kept as they are or removed, and none is added.
pub record Prunes (Removable : FilePath → Text → Type 0) (fs fs' : Fs) : Type 0 where
  pub kept :
      (p : FilePath) (n : Node)
      → lookup p fs ≡ some n
      → (lookup p fs' ≡ some n) ⊎ Gone Removable p n
  pub absent : (p : FilePath) → lookup p fs ≡ none → lookup p fs' ≡ none

module _ {Removable : FilePath → Text → Type 0} where
  pub Prunes-refl : (fs : Fs) → Prunes Removable fs fs
  Prunes-refl fs = record { kept = λ p n h. inl h; absent = λ p h. h }

  pub Prunes-trans :
      {fs gs hs : Fs} → Prunes Removable fs gs → Prunes Removable gs hs → Prunes Removable fs hs
  Prunes-trans a b = record {
    kept = λ p n h. elim (a.kept p n h) [ inl k ↦ b.kept p n k | inr g ↦ inr g ];
    absent = λ p h. b.absent p (a.absent p h);
  }

  pub Prunes-erase :
      (fs : Fs) (q : FilePath) (m : Node)
      → lookup q fs ≡ some m
      → Gone Removable q m
      → Prunes Removable fs (erase q fs)
  Prunes-erase fs q m at gone = record {
    kept = λ p n h. elim (same_path p q) [
      | yes e ↦ inr (
          Gone-subst Removable e (some-injective _ _ (sym at ∙ (ap (λ x. lookup x fs) (sym e) ∙ h)))
            gone)
      | no differ ↦ inl (rw lookup-erase (ground arith))
    ];
    absent = λ p h. rw lookup-erase (ground arith);
  }

  pub rmdir-Prunes : (path : FilePath) (fs : Fs) → Prunes Removable fs (rmdir path fs).1
  unfolding rmdir
  rmdir-Prunes path fs = elim (Option-cases (lookup path fs)) [
    | inl e ↦ rw e (Prunes-refl fs)
    | inr (directory, e) ↦ elim (Bool-cases (any (is_child_of path) (keys fs))) [
      | inl b ↦ rw (e, b) (Prunes-refl fs)
      | inr b ↦ rw (e, b) (Prunes-erase fs path directory e tt)
    ]
    | inr (file t, e) ↦ rw e (Prunes-refl fs)
    | inr (raw t, e) ↦ rw e (Prunes-refl fs)
    | inr (symlink _, e) ↦ rw e (Prunes-refl fs)
  ]

put_text_elsewhere :
    (path : FilePath) (content : Text) (n : Option Node) (fs : Fs) (p : FilePath)
    → p ≢ path
    → lookup p (put_text path content n fs).1 ≡ lookup p fs
put_text_elsewhere path content none fs p ne = rw lookup-insert (ground arith)
put_text_elsewhere path content (some (file _)) fs p ne = rw lookup-insert (ground arith)
put_text_elsewhere path content (some (raw _)) fs p ne = rw lookup-insert (ground arith)
put_text_elsewhere path content (some directory) fs p ne = refl
put_text_elsewhere path content (some (symlink true)) fs p ne = refl
put_text_elsewhere path content (some (symlink false)) fs p ne = refl

pub open_and_write_elsewhere :
    (path : FilePath) (content : Text) (fs : Fs) (p : FilePath)
    → p ≢ path
    → lookup p (open_and_write path content fs).1 ≡ lookup p fs
unfolding open_and_write
open_and_write_elsewhere [] content fs p ne = refl
open_and_write_elsewhere (name ∷ dir) content fs p ne =
    put_text_elsewhere (name ∷ dir) content (lookup (name ∷ dir) fs) fs p ne

module _ {A B : Type 0} (P : Fs → Type 0) where
  continue_keeps :
      (r : Result A) (fs : Fs) (f : A → Io B)
      → P fs
      → ((a : A) → P (f a fs).1)
      → P (continue r fs f).1
  continue_keeps (ok a) fs f h k = k a
  continue_keeps (err e) fs f h k = h

  -- What holds of the tree after an action, and after each continuation, holds after both.
  pub bind_keeps :
      (m : Io A) (f : A → Io B) (fs : Fs)
      → P (m fs).1
      → ((a : A) → P (f a (m fs).1).1)
      → P ((m >>= f) fs).1
  bind_keeps m f fs = continue_keeps (m fs).0 (m fs).1 f

-- A sequence that succeeds: its first action does, and the rest runs from the tree it leaves.
continue-ok :
    {A B : Type 0} (r : Result A) (f : A → Io B) (fs : Fs) {b : B}
    → (continue r fs f).0 ≡ ok b
    → (a : A) × (r ≡ ok a) × (continue r fs f ≡ f a fs)
continue-ok (ok a) f fs h = (a, refl, refl)
continue-ok (err e) f fs h = cc

pub bind-ok :
    {A B : Type 0} (m : Io A) (f : A → Io B) (fs : Fs) {b : B}
    → ((m >>= f) fs).0 ≡ ok b
    → (a : A) × ((m fs).0 ≡ ok a) × ((m >>= f) fs ≡ f a (m fs).1)
bind-ok m f fs h = continue-ok (m fs).0 f (m fs).1 h
