-- ===== src/Os/Steps/Tree.antt =====
-- Lookups after one entry of the tree was changed.
use postgres_dbre.Prelude.{◌≡◌, ◌≢◌, true, none, some, ◌∷◌, arith, nat_eq, list_eq}
use postgres_dbre.Prelude.Dict.{lookup, insert, erase, lookup-insert, lookup-erase}
use postgres_dbre.Text.{Text}
use postgres_dbre.Os.{FilePath, Fs, Node, directory, is_dir}

pub is_dir-lookup :
    (name : Text) (dir : FilePath) (fs : Fs)
    → is_dir (name ∷ dir) fs ≡ true
    → lookup (name ∷ dir) fs ≡ some directory
unfolding is_dir
is_dir-lookup name dir fs h = ground arith

pub lookup-is_dir :
    (name : Text) (dir : FilePath) (fs : Fs)
    → lookup (name ∷ dir) fs ≡ some directory
    → is_dir (name ∷ dir) fs ≡ true
unfolding is_dir
lookup-is_dir name dir fs h = rw (h, is_dir)

pub insert_elsewhere :
    (path : FilePath) (n : Node) (fs : Fs) (q : FilePath)
    → q ≢ path
    → lookup q (insert path n fs) ≡ lookup q fs
insert_elsewhere path n fs q ne = rw lookup-insert (ground arith)

pub insert_same : (path : FilePath) (n : Node) (fs : Fs) → lookup path (insert path n fs) ≡ some n
insert_same path n fs = rw lookup-insert (ground arith)

pub erase_elsewhere :
    (path : FilePath) (fs : Fs) (q : FilePath) → q ≢ path → lookup q (erase path fs) ≡ lookup q fs
erase_elsewhere path fs q ne = rw lookup-erase (ground arith)

pub erase_same : (path : FilePath) (fs : Fs) → lookup path (erase path fs) ≡ none
erase_same path fs = rw lookup-erase (ground arith)
