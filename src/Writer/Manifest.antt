-- ===== src/Writer/Manifest.antt =====
-- writer.py: `_load_manifest`, and the manifest that `sync_managed_artifacts` writes.
pub mod Safety
use postgres_dbre.Prelude.{
  ℕ, ◌+◌, ◌≡◌, refl, Bool, true, false, ◌||◌, ◌&&◌, not, Option, none, some, List, [], ◌∷◌, ◌++◌,
  length, any, is_empty, if◌then◌else◌, nat_beq, leb, ◌==◌, contains, nat_eq, list_eq, sorted,
}
use postgres_dbre.Prelude.Dict.{Dict, lookup}
use postgres_dbre.Text.{Text, codes, newline, text_le}
use postgres_dbre.Os.{
  FilePath, Fs, Error, Result, ok, err, map_ok, and_then, Io, pure, raise, ◌>>=◌, ◌>>◌, exists,
  read_text, json_error, attribute_error, unsupported_manifest, invalid_category, unsafe_path,
}
use postgres_dbre.Writer.{manifest_filename, manifest_version, is_absolute, parts}
use postgres_dbre.Writer.Json.{
  Json, natural, str, obj, Fields, end, field, entries, object, equals_number, Host,
}

-- The files of one category with their digests, and those of all categories.
abbrev pub Files : Type 0
Files = Dict Text Text

abbrev pub Categories : Type 0
Categories = Dict Text Files

abbrev pub manifest_path : FilePath
manifest_path = manifest_filename ∷ []

-- `character in "0123456789abcdef"`
abbrev pub is_hex : ℕ → Bool
is_hex c = (leb b'0' c && leb c b'9') || (leb b'a' c && leb c b'f')

abbrev head_differs : List Text → Text → Bool
head_differs [] category = false
head_differs (part ∷ _) category = not (part == category)

-- The condition under which an entry of the manifest is refused.
unfoldable pub is_unsafe : Text → Text → Text → Bool
is_unsafe category relative digest =
    not (nat_beq (length digest) 64)
    || any (λ c. not (is_hex c)) digest
    || is_absolute relative
    || contains (parts relative) (codes "..")
    || is_empty (parts relative)
    || head_differs (parts relative) category

unfoldable pub check_files : Text → Fields → Result Files
check_files category end = ok []
check_files category (field relative (str digest) rest) =
    let more = check_files category rest in
    if is_unsafe category relative digest
    then err (unsafe_path relative)
    else map_ok (λ files. (relative, digest) ∷ files) more
check_files category (field relative _ rest) = err (unsafe_path relative)

unfoldable pub check_categories : Fields → Result Categories
check_categories end = ok []
check_categories (field category (obj files) rest) =
    let more = check_categories rest in
    and_then (check_files category files) (λ checked. map_ok (λ d. (category, checked) ∷ d) more)
check_categories (field category _ rest) = err (invalid_category category)

abbrev categories_of : Option Json → Result Categories
categories_of (some (obj categories)) = check_categories categories
categories_of _ = err unsupported_manifest

-- The checks on what `json.loads` returned; `data.get` exists on a dict alone.
unfoldable pub check_manifest : Json → Result Categories
check_manifest (obj fields) =
    if not (equals_number (lookup (codes "version") (entries fields)) manifest_version)
    then err unsupported_manifest
    else categories_of (lookup (codes "categories") (entries fields))
check_manifest _ = err attribute_error

abbrev pub loaded : Option Json → Result Categories
loaded none = err json_error
loaded (some value) = check_manifest value

module _ (host : Host) where
  abbrev pub parse_manifest : Text → Io Categories
  parse_manifest content fs = (loaded (host.loads content), fs)

  unfoldable pub load_manifest : Io Categories
  load_manifest fs =
      if not (exists manifest_path fs)
      then (ok [], fs)
      else (read_text manifest_path >>= parse_manifest) fs

-- `dict(sorted(d.items()))`; keys are distinct, so the order of values is never asked.
unfoldable pub sort_items {ℓ} : {A : Type ℓ} → Dict Text A → Dict Text A
unfolding sorted text_le
sort_items = sorted (λ (j, _) (k, _). text_le j k)

abbrev files_json : Files → Fields
files_json [] = end
files_json ((relative, digest) ∷ files) = field relative (str digest) (files_json files)

abbrev categories_json : Categories → Fields
categories_json [] = end
categories_json ((category, files) ∷ more) =
    field category (obj (files_json files)) (categories_json more)

-- The value that `json.dumps` is given.
unfoldable pub manifest_json : Categories → Json
manifest_json categories = obj (
    field (codes "version") (natural manifest_version)
      (field (codes "categories") (obj (categories_json categories)) end))
