-- ===== src/Writer/Manifest/Safety.antt =====
-- What `_load_manifest` lets through.
use mathlib.Core.Path.{subst}
use postgres_dbre.Prelude.{
  inl, inr, ◌≡◌, sym, ap, ◌∙◌, false, not, Option, none, some, List, [], ◌∷◌, length, arith,
  contains, nat_eq, list_eq, nat_beq_iff, All, any, is_empty, Bool-cases,
}
use postgres_dbre.Prelude.Dict.{lookup}
use postgres_dbre.Text.{Text, codes}
use postgres_dbre.Os.{Fs, ok_injective, map_ok-ok, and_then-ok, ok, read_text, exists}
use postgres_dbre.Os.Laws.{bind-ok}
use postgres_dbre.Writer.{is_absolute, parts, names}
use postgres_dbre.Writer.Json.{Json, str, obj, Fields, end, field, entries, Host}
use postgres_dbre.Writer.Manifest.{
  Files, Categories, is_hex, is_unsafe, check_files, check_categories, check_manifest, loaded,
  parse_manifest, load_manifest, head_differs, categories_of, manifest_path,
}

-- A digest of 64 hexadecimal digits, for a relative path without `..` whose first name is that of
-- its category.
pub record IsSafe (category relative digest : Text) : Type 0 where
  pub size : length digest ≡ 64
  pub hexadecimal : any (λ c. not (is_hex c)) digest ≡ false
  pub relative_path : is_absolute relative ≡ false
  pub stays : contains (names relative) (codes "..") ≡ false
  pub below : (rest : List Text) × (names relative ≡ category ∷ rest)

abbrev pub FilesSafe : Text → Files → Type 0
FilesSafe category = All (λ (relative, digest). IsSafe category relative digest)

abbrev pub AreSafe : Categories → Type 0
AreSafe = All (λ (category, files). FilesSafe category files)

head-lem :
    (ps : List Text) (category : Text)
    → is_empty ps ≡ false
    → head_differs ps category ≡ false
    → (rest : List Text) × (ps ≡ category ∷ rest)
head-lem [] category e h = cc
head-lem (part ∷ rest) category e h = (rest, ground arith)

parts-names : (relative : Text) → is_absolute relative ≡ false → parts relative ≡ names relative
unfolding parts
parts-names relative h = rw h

IsSafe-lem :
    (category relative digest : Text)
    → is_unsafe category relative digest ≡ false
    → IsSafe category relative digest
unfolding is_unsafe
IsSafe-lem category relative digest h =
    let same_names = parts-names relative (ground arith) in
    let parts_stay : contains (parts relative) (codes "..") ≡ false = ground arith in
    record {
      size = (nat_beq_iff (length digest) 64).0 (ground arith);
      hexadecimal = ground arith;
      relative_path = ground arith;
      stays = rw same_names at (parts_stay);
      below = rw same_names at (head-lem (parts relative) category (ground arith) (ground arith));
    }

check_files-IsSafe :
    (category : Text) (fields : Fields) (files : Files)
    → check_files category fields ≡ ok files
    → FilesSafe category files
unfolding check_files
check_files-IsSafe category end files h = subst (FilesSafe category) (ok_injective h) tt
check_files-IsSafe category (field relative (str digest) rest) files h =
    elim (Bool-cases (is_unsafe category relative digest)) [
      | inl bad ↦ cc (rw bad at h)
      | inr good ↦
          let (more, passed, whole) =
            map_ok-ok _ (check_files category rest) files (rw good at h) in
          subst (FilesSafe category) whole
            (IsSafe-lem category relative digest good, check_files-IsSafe category rest more passed)
    ]
check_files-IsSafe category (field relative _ rest) files h = cc

check_categories-AreSafe :
    (fields : Fields) (categories : Categories)
    → check_categories fields ≡ ok categories
    → AreSafe categories
unfolding check_categories
check_categories-AreSafe end categories h = subst AreSafe (ok_injective h) tt
check_categories-AreSafe (field category (obj files) rest) categories h =
    let (checked, files_pass, h') = and_then-ok (check_files category files) _ categories h in
    let (more, passed, whole) = map_ok-ok _ (check_categories rest) categories h' in
    subst AreSafe whole (
      check_files-IsSafe category files checked files_pass,
      check_categories-AreSafe rest more passed,
    )
check_categories-AreSafe (field category _ rest) categories h = cc

categories_of-AreSafe :
    (value : Option Json) (categories : Categories)
    → categories_of value ≡ ok categories
    → AreSafe categories
categories_of-AreSafe (some (obj fields)) categories h =
    check_categories-AreSafe fields categories h
categories_of-AreSafe _ categories h = cc

check_manifest-AreSafe :
    (value : Json) (categories : Categories)
    → check_manifest value ≡ ok categories
    → AreSafe categories
unfolding check_manifest
check_manifest-AreSafe (obj fields) categories h =
    categories_of-AreSafe (lookup (codes "categories") (entries fields)) categories (ground arith)
check_manifest-AreSafe _ categories h = cc

loaded-AreSafe :
    (value : Option Json) (categories : Categories)
    → loaded value ≡ ok categories
    → AreSafe categories
loaded-AreSafe none categories h = cc
loaded-AreSafe (some value) categories h = check_manifest-AreSafe value categories h

-- Every entry of a manifest that `_load_manifest` returns is safe: its digest is 64 hexadecimal
-- digits, and its path is relative, has no `..` and begins with the name of its category.
pub load_manifest-AreSafe :
    (host : Host) (fs : Fs) (categories : Categories)
    → (load_manifest host fs).0 ≡ ok categories
    → AreSafe categories
unfolding load_manifest
load_manifest-AreSafe host fs categories h = elim (Bool-cases (exists manifest_path fs)) [
  | inl e ↦
      let (content, read, whole) =
        bind-ok (read_text manifest_path) (parse_manifest host) fs (rw e at h) in
      loaded-AreSafe (host.loads content) categories (ap (λ r. r.0) (sym whole) ∙ (rw e at h))
  | inr e ↦ subst AreSafe (ok_injective (rw e at h)) tt
]
