-- ===== src/Os/Writes.antt =====
-- What making directories and writing a file do to the file tree.
use postgres_dbre.Prelude.{
  ◌≡◌, refl, ap, inl, inr, Option, none, some, Option-cases, [], ◌∷◌, arith, nat_eq, list_eq, true,
  false,
}
use postgres_dbre.Prelude.Dict.{lookup, insert, lookup-insert}
use postgres_dbre.Text.{Text}
use postgres_dbre.Os.{
  FilePath, Fs, Node, file, raw, directory, symlink, ok, make_dir, makedirs, put_text,
  open_and_write,
}
use postgres_dbre.Os.Laws.{same_path, bind_keeps}

-- Directories are made only where nothing stands.
module _ (p : FilePath) (m : Node) where
  make_dir_keeps :
      (path : FilePath) (fs : Fs)
      → lookup p fs ≡ some m
      → lookup p (make_dir path (lookup path fs) fs).1 ≡ some m
  make_dir_keeps path fs at = elim (Option-cases (lookup path fs)) [
    | inl e ↦ elim (same_path p path) [
      | yes same ↦ cc (ap (λ q. lookup q fs) same)
      | no differ ↦ rw (e, lookup-insert) (ground arith)
    ]
    | inr (directory, e) ↦ rw e at
    | inr (file t, e) ↦ rw e at
    | inr (raw t, e) ↦ rw e at
    | inr (symlink _, e) ↦ rw e at
  ]

  pub makedirs_keeps :
      (path : FilePath) (fs : Fs) → lookup p fs ≡ some m → lookup p (makedirs path fs).1 ≡ some m
  unfolding makedirs
  makedirs_keeps [] fs at = at
  makedirs_keeps (name ∷ dir) fs at =
      let above = makedirs_keeps dir fs at in
      bind_keeps (λ (gs : Fs). lookup p gs ≡ some m) (makedirs dir) _ fs above
        (λ _. make_dir_keeps (name ∷ dir) (makedirs dir fs).1 above)

-- A new file or a symbolic link, through which a write leaves the tree.
abbrev pub IsPut : Text → Option Node → Type 0
IsPut content (some (file t)) = content ≡ t
IsPut content (some (symlink _)) = Unit
IsPut content _ = ⊥

lookup-insert_same : (p : FilePath) (n : Node) (fs : Fs) → lookup p (insert p n fs) ≡ some n
lookup-insert_same p n fs = rw lookup-insert (ground arith)

put_text-IsPut :
    (path : FilePath) (content : Text) (n : Option Node) (fs : Fs)
    → lookup path fs ≡ n
    → (put_text path content n fs).0 ≡ ok tt
    → IsPut content (lookup path (put_text path content n fs).1)
put_text-IsPut path content none fs e h = rw lookup-insert_same refl
put_text-IsPut path content (some (file t)) fs e h = rw lookup-insert_same refl
put_text-IsPut path content (some (raw t)) fs e h = rw lookup-insert_same refl
put_text-IsPut path content (some directory) fs e h = cc
put_text-IsPut path content (some (symlink true)) fs e h = rw e tt
put_text-IsPut path content (some (symlink false)) fs e h = cc

pub open_and_write-IsPut :
    (path : FilePath) (content : Text) (fs : Fs)
    → (open_and_write path content fs).0 ≡ ok tt
    → IsPut content (lookup path (open_and_write path content fs).1)
unfolding open_and_write
open_and_write-IsPut [] content fs h = cc
open_and_write-IsPut (name ∷ dir) content fs h =
    put_text-IsPut (name ∷ dir) content (lookup (name ∷ dir) fs) fs refl h
