-- ===== src/Os.antt =====
-- The file tree below the repository's root as the tools see it through `os` and `pathlib`, and
-- actions that read and change it and may raise. What was done before a raise stays done.
pub mod Laws
pub mod Writes
pub mod Steps
pub mod Runs
pub mod Returns
use postgres_dbre.Prelude.{
  ◌≡◌, refl, arith, ◌⊎◌, inl, inr, ℕ, Bool, true, false, not, ◌&&◌, Option, none, some, List, [],
  ◌∷◌, nat_beq, if◌then◌else◌, any, ◌==◌, nat_eq, list_eq,
}
use postgres_dbre.Prelude.Dict.{Dict, lookup, insert, erase, keys}
use postgres_dbre.Text.{Text, newline}

-- A path below the root, its last name first, so that the parent is the tail. The root is `[]`.
abbrev pub FilePath : Type 0
FilePath = List Text

-- A `raw` file holds bytes that are no UTF-8; its text is what `errors="replace"` reads.
-- A symbolic link leads to a place outside the tree where nothing exists; the flag tells whether a
-- file can be made there, as its directory exists.
pub data Node : Type 0 where
  file : Text → Node
  raw : Text → Node
  directory : Node
  symlink : Bool → Node

-- The entries below the root. The root itself is a directory and no entry.
abbrev pub Fs : Type 0
Fs = Dict FilePath Node

-- What the tools raise, or let through from the standard library.
pub data Error : Type 0 where
  os_error : FilePath → Error
  file_not_found : FilePath → Error
  decode_error : FilePath → Error
  json_error : Error
  index_error : Error
  attribute_error : Error
  unsupported_manifest : Error
  invalid_category : Text → Error
  unsafe_path : Text → Error
  modified_content : Text → Error
  missing_external : FilePath → Error
  mixed_categories : Text → Error

pub data Result {ℓ} (A : Type ℓ) : Type ℓ where
  ok : A → Result A
  err : Error → Result A

pub Result-cases {ℓ} :
    {A : Type ℓ} (r : Result A) → ((e : Error) × (r ≡ err e)) ⊎ ((a : A) × (r ≡ ok a))
Result-cases (ok a) = inr (a, refl)
Result-cases (err e) = inl (e, refl)

pub ok_injective {ℓ} : {A : Type ℓ} {a b : A} → ok a ≡ ok b → a ≡ b
ok_injective h = cc

module _ {ℓ} {A B : Type ℓ} where
  -- A pure step after a result.
  abbrev pub map_ok : (A → B) → Result A → Result B
  map_ok f (ok a) = ok (f a)
  map_ok f (err e) = err e

  abbrev pub and_then : Result A → (A → Result B) → Result B
  and_then (ok a) f = f a
  and_then (err e) f = err e

  pub map_ok-ok :
      (f : A → B) (r : Result A) (b : B) → map_ok f r ≡ ok b → (a : A) × (r ≡ ok a) × (f a ≡ b)
  map_ok-ok f (ok a) b h = (a, refl, ground arith)
  map_ok-ok f (err e) b h = cc

  pub and_then-ok :
      (r : Result A) (f : A → Result B) (b : B)
      → and_then r f ≡ ok b
      → (a : A) × (r ≡ ok a) × (f a ≡ ok b)
  and_then-ok (ok a) f b h = (a, refl, h)
  and_then-ok (err e) f b h = cc

abbrev pub Io {ℓ} : Type ℓ → Type ℓ
Io A = Fs → Result A × Fs

module _ {ℓ} {A : Type ℓ} where
  abbrev pub pure : A → Io A
  pure a fs = (ok a, fs)

  abbrev pub raise : Error → Io A
  raise e fs = (err e, fs)

module _ {ℓ κ} {A : Type ℓ} {B : Type κ} where
  abbrev pub continue : Result A → Fs → (A → Io B) → Result B × Fs
  continue (ok a) fs f = f a fs
  continue (err e) fs f = (err e, fs)

  infixl 5 ◌>>=◌
  abbrev pub ◌>>=◌ : Io A → (A → Io B) → Io B
  ◌>>=◌ m f fs = let (r, fs') = m fs in continue r fs' f

infixl 5 ◌>>◌
abbrev pub ◌>>◌ {ℓ} : {B : Type ℓ} → Io (Unit {0}) → Io B → Io B
m >> k = m >>= λ _. k

-- `path.is_dir()`, `path.is_file()` and `path.exists()`
unfoldable pub is_dir : FilePath → Fs → Bool
is_dir [] fs = true
is_dir (name ∷ dir) fs = elim (lookup (name ∷ dir) fs) [ some directory ↦ true | _ ↦ false ]

unfoldable pub is_file : FilePath → Fs → Bool
is_file path fs = elim (lookup path fs) [ some (file _) ↦ true | some (raw _) ↦ true | _ ↦ false ]

unfoldable pub exists : FilePath → Fs → Bool
exists [] fs = true
exists (name ∷ dir) fs = elim (lookup (name ∷ dir) fs) [
  | none ↦ false
  | some (symlink _) ↦ false
  | some _ ↦ true
]

-- `path.parent == dir`
abbrev pub is_child_of : FilePath → FilePath → Bool
is_child_of dir [] = false
is_child_of dir (_ ∷ parent) = parent == dir

-- Reading in text mode turns `\r\n` and `\r` into `\n`.
unfoldable pub universal_newlines : Text → Text
universal_newlines [] = []
universal_newlines (c ∷ []) = (if nat_beq c b'\r' then newline else c) ∷ []
universal_newlines (c ∷ d ∷ s) =
    let both = newline ∷ universal_newlines s in
    let rest = universal_newlines (d ∷ s) in
    if nat_beq c b'\r' then (if nat_beq d newline then both else newline ∷ rest) else c ∷ rest

-- `path.read_text(encoding="utf-8")`
abbrev text_of : FilePath → Option Node → Result Text
text_of path (some (file s)) = ok (universal_newlines s)
text_of path (some (raw _)) = err (decode_error path)
text_of path (some directory) = err (os_error path)
text_of path (some (symlink _)) = err (file_not_found path)
text_of path none = err (file_not_found path)

unfoldable pub read_text : FilePath → Io Text
read_text path fs = (text_of path (lookup path fs), fs)

-- `os.makedirs(path, exist_ok=True)`
abbrev make_dir : FilePath → Option Node → Io (Unit {0})
make_dir path none fs = (ok tt, insert path directory fs)
make_dir path (some directory) fs = (ok tt, fs)
make_dir path (some _) fs = (err (os_error path), fs)

unfoldable pub makedirs : FilePath → Io (Unit {0})
makedirs [] = pure tt
makedirs (name ∷ dir) = makedirs dir >>= λ _ fs. make_dir (name ∷ dir) (lookup (name ∷ dir) fs) fs

-- `open(path, "w")` and one `write`. Through a link, it makes the file outside the tree, if it can.
abbrev put_text : FilePath → Text → Option Node → Io (Unit {0})
put_text path content (some directory) fs = (err (os_error path), fs)
put_text path content (some (symlink true)) fs = (ok tt, fs)
put_text path content (some (symlink false)) fs = (err (file_not_found path), fs)
put_text path content _ fs = (ok tt, insert path (file content) fs)

-- `path.unlink()`
abbrev remove_node : FilePath → Option Node → Io (Unit {0})
remove_node path none fs = (err (file_not_found path), fs)
remove_node path (some directory) fs = (err (os_error path), fs)
remove_node path (some _) fs = (ok tt, erase path fs)

unfoldable pub unlink : FilePath → Io (Unit {0})
unlink path fs = remove_node path (lookup path fs) fs

-- `path.rmdir()`: of an empty directory only.
abbrev remove_dir : FilePath → Option Node → Io (Unit {0})
remove_dir path (some directory) fs =
    if any (is_child_of path) (keys fs) then (err (os_error path), fs) else (ok tt, erase path fs)
remove_dir path _ fs = (err (os_error path), fs)

unfoldable pub rmdir : FilePath → Io (Unit {0})
rmdir path fs = remove_dir path (lookup path fs) fs

unfoldable pub open_and_write : FilePath → Text → Io (Unit {0})
open_and_write [] content fs = (err (os_error []), fs)
open_and_write (name ∷ dir) content fs = put_text (name ∷ dir) content (lookup (name ∷ dir) fs) fs
