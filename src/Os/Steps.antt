-- ===== src/Os/Steps.antt =====
-- The file tree as an abstract machine: the steps that the tools' calls to the operating system can
-- take, and what every run of them preserves.
pub mod Tree
pub mod Kept
use postgres_dbre.Prelude.{
  ◌≡◌, ◌≢◌, refl, sym, ap, ◌∙◌, ◌⊎◌, inl, inr, Bool, true, false, any, Option, none, some,
  Option-cases, List, [], ◌∷◌, arith, ◌==◌, ==_iff, nat_eq, list_eq, if◌then◌else◌,
}
use postgres_dbre.Prelude.Dict.{lookup, insert, erase, keys, lookup-insert, lookup-erase}
use postgres_dbre.Text.{Text}
use postgres_dbre.Os.{FilePath, Fs, Node, file, raw, directory, symlink, is_dir, is_child_of}
use postgres_dbre.Os.Laws.{same_path}

-- A node that a write replaces: none, or a file.
pub data IsWritable : Option Node → Type 0 where
  nothing : IsWritable none
  text : (t : Text) → IsWritable (some (file t))
  bytes : (t : Text) → IsWritable (some (raw t))

-- One call: a directory is made where nothing stands, a text is written to a path to which
-- `Written` allows it, a file is removed, or an empty directory is.
pub data Step (Written : FilePath → Text → Type 0) (fs fs' : Fs) : Type 0 where
  make :
      (name : Text) (dir : FilePath)
      → is_dir dir fs ≡ true
      → lookup (name ∷ dir) fs ≡ none
      → fs' ≡ insert (name ∷ dir) directory fs
      → Step Written fs fs'
  write :
      (name : Text) (dir : FilePath) (content : Text)
      → Written (name ∷ dir) content
      → is_dir dir fs ≡ true
      → IsWritable (lookup (name ∷ dir) fs)
      → fs' ≡ insert (name ∷ dir) (file content) fs
      → Step Written fs fs'
  remove :
      (path : FilePath) (content : Text)
      → lookup path fs ≡ some (file content)
      → fs' ≡ erase path fs
      → Step Written fs fs'
  remove_empty :
      (path : FilePath)
      → lookup path fs ≡ some directory
      → any (is_child_of path) (keys fs) ≡ false
      → fs' ≡ erase path fs
      → Step Written fs fs'

pub data Reach (Written : FilePath → Text → Type 0) (fs : Fs) : Fs → Type 0 where
  here : Reach Written fs fs
  next : {gs hs : Fs} → Reach Written fs gs → Step Written gs hs → Reach Written fs hs

pub Reach-trans :
    {Written : FilePath → Text → Type 0} {fs gs hs : Fs}
    → Reach Written fs gs
    → Reach Written gs hs
    → Reach Written fs hs
Reach-trans r here = r
Reach-trans r (next s st) = next (Reach-trans r s) st
