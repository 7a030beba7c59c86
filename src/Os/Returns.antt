-- ===== src/Os/Returns.antt =====
-- Writing where no directory is in the way of a file and nothing else in the way of a directory.
use mathlib.Core.Path.{subst}
use postgres_dbre.Prelude.{
  ◌≡◌, refl, sym, ap, ◌∙◌, Bool, true, false, Option, none, some, [], ◌∷◌, nat_eq, list_eq,
}
use postgres_dbre.Prelude.Dict.{lookup, insert}
use postgres_dbre.Text.{Text}
use postgres_dbre.Os.{
  FilePath, Fs, Node, file, raw, directory, symlink, Result, ok, Io, pure, continue, ◌>>=◌,
  make_dir, makedirs, put_text, open_and_write,
}
use postgres_dbre.Os.Laws.{same_path}
use postgres_dbre.Os.Steps.Tree.{insert_elsewhere, insert_same}

module _ (for_dir : FilePath → Bool) where
  -- What can be opened for writing.
  abbrev pub CanOpen : Node → Type 0
  CanOpen (file t) = Unit
  CanOpen (raw t) = Unit
  CanOpen directory = ⊥
  CanOpen (symlink true) = Unit
  CanOpen (symlink false) = ⊥

  -- At the places meant for directories stands nothing else, and what stands at the others can be
  -- opened for writing.
  abbrev pub Fits : Fs → Type 0
  Fits fs =
      (p : FilePath) (n : Node)
      → lookup p fs ≡ some n
      → (for_dir p ≡ true → n ≡ directory) × (for_dir p ≡ false → CanOpen n)

  -- From every such tree the action returns and leaves such a tree.
  abbrev pub Returns : {A : Type 0} → Io A → Type 0
  Returns {A} m = (fs : Fs) → Fits fs → ((a : A) × ((m fs).0 ≡ ok a)) × Fits (m fs).1

  pub Returns-pure : {A : Type 0} (a : A) → Returns (pure a)
  Returns-pure a fs fits = ((a, refl), fits)

  continue-Returns :
      {A B : Type 0} (r : Result A) (a : A) (f : A → Io B) (fs : Fs)
      → r ≡ ok a
      → Returns (f a)
      → Fits fs
      → ((b : B) × ((continue r fs f).0 ≡ ok b)) × Fits (continue r fs f).1
  continue-Returns r a f fs e h fits = rw e (h fs fits)

  pub Returns-bind :
      {A B : Type 0} (m : Io A) (f : A → Io B)
      → Returns m
      → ((a : A) → Returns (f a))
      → Returns (m >>= f)
  Returns-bind m f rm rf fs fits =
      let ((a, e), after) = rm fs fits in continue-Returns (m fs).0 a f (m fs).1 e (rf a) after

  Fits-insert :
      (path : FilePath) (n : Node) (fs : Fs)
      → (for_dir path ≡ true → n ≡ directory) × (for_dir path ≡ false → CanOpen n)
      → Fits fs
      → Fits (insert path n fs)
  Fits-insert path n fs fit fits p m at = elim (same_path p path) [
    | yes same ↦
        let node : n ≡ m = cc (insert_same path n fs, at, same) in
        (
          λ d. sym node ∙ fit.0 (ap for_dir (sym same) ∙ d),
          λ d. subst CanOpen node (fit.1 (ap for_dir (sym same) ∙ d)),
        )
    | no differ ↦ fits p m (sym (insert_elsewhere path n fs p differ) ∙ at)
  ]

  -- All directories of a path are at places for directories.
  abbrev pub AllDirs : FilePath → Type 0
  AllDirs [] = Unit
  AllDirs (name ∷ dir) = (for_dir (name ∷ dir) ≡ true) × AllDirs dir

  make_dir-Returns :
      (path : FilePath) (o : Option Node) (fs : Fs)
      → for_dir path ≡ true
      → lookup path fs ≡ o
      → Fits fs
      → ((a : Unit {0}) × ((make_dir path o fs).0 ≡ ok a)) × Fits (make_dir path o fs).1
  make_dir-Returns path none fs d at fits =
      ((tt, refl), Fits-insert path directory fs (λ _. refl, λ e. cc (d, e)) fits)
  make_dir-Returns path (some directory) fs d at fits = ((tt, refl), fits)
  make_dir-Returns path (some (file t)) fs d at fits = cc ((fits path (file t) at).0 d)
  make_dir-Returns path (some (raw t)) fs d at fits = cc ((fits path (raw t) at).0 d)
  make_dir-Returns path (some (symlink opens)) fs d at fits =
      cc ((fits path (symlink opens) at).0 d)

  makedirs-Returns : (path : FilePath) → AllDirs path → Returns (makedirs path)
  unfolding makedirs
  makedirs-Returns [] dirs = Returns-pure tt
  makedirs-Returns (name ∷ dir) (d, dirs) =
      Returns-bind (makedirs dir) (λ _ fs. make_dir (name ∷ dir) (lookup (name ∷ dir) fs) fs)
        (makedirs-Returns dir dirs)
        (λ _ fs fits. make_dir-Returns (name ∷ dir) (lookup (name ∷ dir) fs) fs d refl fits)

  put_text-Returns :
      (path : FilePath) (content : Text) (o : Option Node) (fs : Fs)
      → for_dir path ≡ false
      → lookup path fs ≡ o
      → Fits fs
      → ((a : Unit {0}) × ((put_text path content o fs).0 ≡ ok a))
        × Fits (put_text path content o fs).1
  put_text-Returns path content none fs d at fits =
      ((tt, refl), Fits-insert path (file content) fs (λ e. cc (d, e), λ _. tt) fits)
  put_text-Returns path content (some (file t)) fs d at fits =
      ((tt, refl), Fits-insert path (file content) fs (λ e. cc (d, e), λ _. tt) fits)
  put_text-Returns path content (some (raw t)) fs d at fits =
      ((tt, refl), Fits-insert path (file content) fs (λ e. cc (d, e), λ _. tt) fits)
  put_text-Returns path content (some (symlink true)) fs d at fits = ((tt, refl), fits)
  put_text-Returns path content (some (symlink false)) fs d at fits =
      absurd ((fits path (symlink false) at).1 d)
  put_text-Returns path content (some directory) fs d at fits =
      absurd ((fits path directory at).1 d)

  -- The parents of a file are for directories, its place is not.
  abbrev pub IsFree : FilePath → Type 0
  IsFree [] = ⊥
  IsFree (name ∷ dir) = (for_dir (name ∷ dir) ≡ false) × AllDirs dir

  pub write_after-Returns :
      (name : Text) (dir : FilePath) (content : Text)
      → IsFree (name ∷ dir)
      → Returns (makedirs dir >>= λ _. open_and_write (name ∷ dir) content)
  unfolding open_and_write
  write_after-Returns name dir content (f, dirs) =
      Returns-bind (makedirs dir) (λ _. open_and_write (name ∷ dir) content)
        (makedirs-Returns dir dirs)
        (λ _ fs fits. put_text-Returns (name ∷ dir) content (lookup (name ∷ dir) fs) fs f refl fits)
