-- ===== src/Os/Runs.antt =====
-- The calls to the operating system as steps of the machine.
use mathlib.Core.Path.{subst}
use postgres_dbre.Prelude.{
  ◌≡◌, refl, sym, inl, inr, true, any, Bool-cases, Option, none, some, [], ◌∷◌, nat_eq, list_eq,
  false,
}
use postgres_dbre.Prelude.Dict.{lookup, insert, keys}
use postgres_dbre.Text.{Text}
use postgres_dbre.Os.{
  FilePath, Fs, Node, file, raw, directory, symlink, Result, ok, err, Io, continue, ◌>>=◌, is_dir,
  is_child_of, make_dir, makedirs, put_text, open_and_write, rmdir, remove_dir, unlink,
}
use postgres_dbre.Os.Laws.{bind-ok}
use postgres_dbre.Os.Steps.{
  IsWritable, nothing, text, bytes, Step, make, write, remove, remove_empty, Reach, here, next,
  Reach-trans,
}
use postgres_dbre.Os.Steps.Tree.{lookup-is_dir, insert_same}

module _ (Written : FilePath → Text → Type 0) where
  -- An action that is a run of the machine from every tree, whatever its outcome.
  abbrev pub Runs {ℓ} : {A : Type ℓ} → Io A → Type 0
  Runs m = (fs : Fs) → Reach Written fs (m fs).1

  one-Step : {fs gs : Fs} → Step Written fs gs → Reach Written fs gs
  one-Step st = next here st

  pub Runs-continue {ℓ κ} :
      {A : Type ℓ} {B : Type κ} (r : Result A) (f : A → Io B)
      → ((a : A) → Runs (f a))
      → Runs (λ fs. continue r fs f)
  Runs-continue (ok a) f h fs = h a fs
  Runs-continue (err e) f h fs = here

  pub Runs-bind {ℓ κ} :
      {A : Type ℓ} {B : Type κ} (m : Io A) (f : A → Io B)
      → Runs m
      → ((a : A) → Runs (f a))
      → Runs (m >>= f)
  Runs-bind m f rm rf fs = Reach-trans (rm fs) (Runs-continue (m fs).0 f rf (m fs).1)

  -- A directory is made in a directory.
  make_dir-Reach :
      (name : Text) (dir : FilePath) (n : Option Node) (fs : Fs)
      → is_dir dir fs ≡ true
      → lookup (name ∷ dir) fs ≡ n
      → Reach Written fs (make_dir (name ∷ dir) n fs).1
  make_dir-Reach name dir none fs above at = one-Step (make name dir above at refl)
  make_dir-Reach name dir (some directory) fs above at = here
  make_dir-Reach name dir (some (file t)) fs above at = here
  make_dir-Reach name dir (some (raw t)) fs above at = here
  make_dir-Reach name dir (some (symlink opens)) fs above at = here

  make_dir-is_dir :
      (name : Text) (dir : FilePath) (n : Option Node) (fs : Fs)
      → lookup (name ∷ dir) fs ≡ n
      → (make_dir (name ∷ dir) n fs).0 ≡ ok tt
      → is_dir (name ∷ dir) (make_dir (name ∷ dir) n fs).1 ≡ true
  make_dir-is_dir name dir none fs at h =
      lookup-is_dir name dir (insert (name ∷ dir) directory fs)
        (insert_same (name ∷ dir) directory fs)
  make_dir-is_dir name dir (some directory) fs at h = lookup-is_dir name dir fs at
  make_dir-is_dir name dir (some (file t)) fs at h = cc
  make_dir-is_dir name dir (some (raw t)) fs at h = cc
  make_dir-is_dir name dir (some (symlink opens)) fs at h = cc

  pub makedirs-is_dir :
      (path : FilePath) (fs : Fs)
      → (makedirs path fs).0 ≡ ok tt
      → is_dir path (makedirs path fs).1 ≡ true
  unfolding makedirs
  makedirs-is_dir [] fs h = unfold is_dir in refl
  makedirs-is_dir (name ∷ dir) fs h =
      let made = λ (_ : Unit {0}) (gs : Fs). make_dir (name ∷ dir) (lookup (name ∷ dir) gs) gs in
      let (a, first, whole) = bind-ok (makedirs dir) made fs h in
      let gs = (makedirs dir fs).1 in
      rw whole (make_dir-is_dir name dir (lookup (name ∷ dir) gs) gs refl (rw whole at h))

  -- After a result, the rest runs if it does so from the tree of a success.
  after_result :
      {A B : Type 0} (r : Result A) (f : A → Io B) (fs : Fs)
      → ((a : A) → r ≡ ok a → Reach Written fs (f a fs).1)
      → Reach Written fs (continue r fs f).1
  after_result (ok a) f fs h = h a refl
  after_result (err e) f fs h = here

  pub makedirs-Runs : (path : FilePath) → Runs (makedirs path)
  unfolding makedirs
  makedirs-Runs [] fs = here
  makedirs-Runs (name ∷ dir) fs =
      let gs = (makedirs dir fs).1 in
      Reach-trans (makedirs-Runs dir fs) (
        after_result (makedirs dir fs).0 _ gs λ a e.
          make_dir-Reach name dir (lookup (name ∷ dir) gs) gs (makedirs-is_dir dir fs e) refl)

  put_text-Reach :
      (name : Text) (dir : FilePath) (content : Text) (n : Option Node) (fs : Fs)
      → Written (name ∷ dir) content
      → is_dir dir fs ≡ true
      → lookup (name ∷ dir) fs ≡ n
      → Reach Written fs (put_text (name ∷ dir) content n fs).1
  put_text-Reach name dir content none fs w above at =
      one-Step (write name dir content w above (subst IsWritable (sym at) nothing) refl)
  put_text-Reach name dir content (some (file t)) fs w above at =
      one-Step (write name dir content w above (subst IsWritable (sym at) (text t)) refl)
  put_text-Reach name dir content (some (raw t)) fs w above at =
      one-Step (write name dir content w above (subst IsWritable (sym at) (bytes t)) refl)
  put_text-Reach name dir content (some directory) fs w above at = here
  put_text-Reach name dir content (some (symlink true)) fs w above at = here
  put_text-Reach name dir content (some (symlink false)) fs w above at = here

  pub open_and_write-Reach :
      (name : Text) (dir : FilePath) (content : Text) (fs : Fs)
      → Written (name ∷ dir) content
      → is_dir dir fs ≡ true
      → Reach Written fs (open_and_write (name ∷ dir) content fs).1
  unfolding open_and_write
  open_and_write-Reach name dir content fs w above =
      put_text-Reach name dir content (lookup (name ∷ dir) fs) fs w above refl

  pub unlink-Reach :
      (path : FilePath) (content : Text) (fs : Fs)
      → lookup path fs ≡ some (file content)
      → Reach Written fs (unlink path fs).1
  unfolding unlink
  unlink-Reach path content fs at = rw at (one-Step (remove path content at refl))

  remove_dir-Reach :
      (path : FilePath) (n : Option Node) (fs : Fs)
      → lookup path fs ≡ n
      → Reach Written fs (remove_dir path n fs).1
  remove_dir-Reach path none fs at = here
  remove_dir-Reach path (some (file t)) fs at = here
  remove_dir-Reach path (some (raw t)) fs at = here
  remove_dir-Reach path (some (symlink opens)) fs at = here
  remove_dir-Reach path (some directory) fs at =
      elim (Bool-cases (any (is_child_of path) (keys fs))) [
        | inl e ↦ rw e here
        | inr e ↦ rw e (one-Step (remove_empty path at e refl))
      ]

  pub rmdir-Runs : (path : FilePath) → Runs (rmdir path)
  unfolding rmdir
  rmdir-Runs path fs = remove_dir-Reach path (lookup path fs) fs refl

  pub write_after :
      (name : Text) (dir : FilePath) (content : Text)
      → Written (name ∷ dir) content
      → Runs (makedirs dir >>= λ _. open_and_write (name ∷ dir) content)
  write_after name dir content w fs = Reach-trans (makedirs-Runs dir fs) (
      after_result (makedirs dir fs).0 _ (makedirs dir fs).1 λ a e.
        open_and_write-Reach name dir content (makedirs dir fs).1 w (makedirs-is_dir dir fs e))
