-- ===== src/Validate/Established.antt =====
-- What a check without errors has established, where it warns as well.
use mathlib.Core.Path.{subst}
use postgres_dbre.Prelude.{
  ℕ, ◌≡◌, refl, sym, inl, inr, Bool, true, not, Option, none, some, List, [], ◌∷◌, map, contains,
  keep_if, length, All, All-map, Bool-cases, nat_eq, list_eq, arith,
}
use postgres_dbre.Text.{Text}
use postgres_dbre.Os.{FilePath, Fs, Result, ok, map_ok-ok, and_then-ok, is_dir}
use postgres_dbre.Header.{SqlHeader, parse_sql_header}
use postgres_dbre.Catalog.{all_expected_categories, explicit_catalog}
use postgres_dbre.Prelude.Dict.{Dict}
use postgres_dbre.Checks.{
  Issue, collect_issues, read_replaced, name_of, discover_sql_files, discover_category_dirs,
}
use postgres_dbre.Checks.Sql.{header_issues, missing_issue, label_issue, check_sql_headers}
use postgres_dbre.Checks.Filenames.{
  range, sort_numbers, numbers_of, script_names, number_issues, scripts_dir_issues, all_dirs_issues,
}
use postgres_dbre.Checks.Filenames.Sequence.{number_issues_none_iff}
use postgres_dbre.Checks.Completeness.{
  missing_category, missing_workflow, extra_workflow, difference, dirs_below, category_issues,
  catalog_issues, check_catalog_completeness,
}
use postgres_dbre.Checks.Completeness.Exact.{category_issues_none_iff}
use postgres_dbre.Checks.Links.{markdown_files, check_markdown_links}
use postgres_dbre.Validate.{is_error}
use postgres_dbre.Validate.Exit.{NoErrors}
use postgres_dbre.Validate.Quiet.{NoErrors-append}
use postgres_dbre.Validate.Errors.{OnlyErrors, OnlyErrors-silent, all-append}

collect_quiet {ℓ} :
    {A : Type ℓ} (f : A → Result (List Issue)) (xs : List A) (found : List Issue)
    → collect_issues f xs ≡ ok found
    → NoErrors found
    → All (λ x. (issues : List Issue) × ((f x ≡ ok issues) × NoErrors issues)) xs
unfolding collect_issues
collect_quiet f [] found h quiet = tt
collect_quiet f (x ∷ xs) found h quiet =
    let (issues, here, rest) = and_then-ok (f x) _ found h in
    let (more, later, joined) = map_ok-ok _ (collect_issues f xs) found rest in
    let parts = NoErrors-append issues more (subst NoErrors (sym joined) quiet) in
    ((issues, (here, parts.0)), collect_quiet f xs more later parts.1)

-- A file with a header that has all fields and a value for SAFETY.
pub record IsHeaded (fs : Fs) (p : FilePath) : Type 0 where
  pub content : Text
  pub label : Text
  pub readable : read_replaced fs p ≡ ok content
  pub found : (parse_sql_header content).found ≡ true
  pub complete : (parse_sql_header content).missing_fields ≡ []
  pub labelled : (parse_sql_header content).safety_label ≡ some label

missing_none : (p : FilePath) (fields : List Text) → NoErrors (missing_issue p fields) → fields ≡ []
missing_none p [] h = refl
missing_none p (f ∷ fs) h = cc h.0

label_some :
    (p : FilePath) (label : Option Text) (known : Bool)
    → NoErrors (label_issue p label known)
    → (l : Text) × (label ≡ some l)
label_some p none known h = cc h.0
label_some p (some l) known h = (l, refl)

header_quiet :
    (p : FilePath) (header : SqlHeader)
    → NoErrors (header_issues p header)
    → (header.found ≡ true)
      × ((header.missing_fields ≡ []) × ((l : Text) × (header.safety_label ≡ some l)))
unfolding header_issues
header_quiet p header h = elim (Bool-cases header.found) [
  | inl e ↦
      let parts = NoErrors-append (missing_issue p header.missing_fields) _ (rw e at h) in
      (
        e,
        (missing_none p header.missing_fields parts.0, label_some p header.safety_label _ parts.1),
      )
  | inr e ↦ let wrong = rw e at h in cc wrong.0
]

pub check_sql_headers-IsHeaded :
    (root : FilePath) (fs : Fs) (found : List Issue)
    → check_sql_headers root fs ≡ ok found
    → NoErrors found
    → All (IsHeaded fs) (discover_sql_files root fs)
unfolding check_sql_headers
check_sql_headers-IsHeaded root fs found h quiet =
    All-map
      (λ p (issues, (h', none_found)).
        let (content, read, same) = map_ok-ok _ (read_replaced fs p) issues h' in
        let (e, (fields, (l, labelled))) =
          header_quiet p (parse_sql_header content) (subst NoErrors (sym same) none_found) in
        record {
          content = content;
          label = l;
          readable = read;
          found = e;
          complete = fields;
          labelled = labelled;
        })
      (discover_sql_files root fs) (collect_quiet _ (discover_sql_files root fs) found h quiet)

pub check_markdown_links_reads :
    (root : FilePath) (fs : Fs) (found : List Issue)
    → check_markdown_links root fs ≡ ok found
    → NoErrors found
    → All (λ p. (content : Text) × (read_replaced fs p ≡ ok content)) (markdown_files root fs)
unfolding check_markdown_links
check_markdown_links_reads root fs found h quiet =
    All-map
      (λ p (issues, (h', none_found)).
        let (content, read, same) = map_ok-ok _ (read_replaced fs p) issues h' in (content, read))
      (markdown_files root fs) (collect_quiet _ (markdown_files root fs) found h quiet)

number_issues-OnlyErrors : (dir : FilePath) (ns : List ℕ) → OnlyErrors (number_issues dir ns)
unfolding number_issues
number_issues-OnlyErrors dir [] = refl
number_issues-OnlyErrors dir (n ∷ ns) = ground arith

pub dirs_numbered :
    (fs : Fs) (dirs : List FilePath)
    → NoErrors (all_dirs_issues fs dirs)
    → All
        (λ dir. let ns = numbers_of (script_names fs dir) in sort_numbers ns ≡ range 1 (length ns))
        dirs
unfolding scripts_dir_issues
dirs_numbered fs [] h = tt
dirs_numbered fs (dir ∷ dirs) h =
    let ns = numbers_of (script_names fs dir) in
    let parts = NoErrors-append (scripts_dir_issues fs dir) _ h in
    let numbers = (NoErrors-append _ (number_issues dir ns) parts.0).1 in
    (
      (number_issues_none_iff dir ns).0
          (OnlyErrors-silent (number_issues dir ns) (number_issues-OnlyErrors dir ns) numbers),
      dirs_numbered fs dirs parts.1,
    )

missing_categories_none :
    (existing categories : List Text)
    → NoErrors (map missing_category (keep_if (λ c. not (contains existing c)) categories))
    → All (λ c. contains existing c ≡ true) categories
missing_categories_none existing [] h = tt
missing_categories_none existing (c ∷ cs) h = elim (Bool-cases (contains existing c)) [
  | inl e ↦ (e, missing_categories_none existing cs (rw e at h))
  | inr e ↦ let wrong = rw e at h in cc wrong.0
]

map_errors :
    (f : Text → Issue) (xs : List Text)
    → ((x : Text) → is_error (f x) ≡ true)
    → OnlyErrors (map f xs)
map_errors f [] h = refl
map_errors f (x ∷ xs) h = rw (h x) (map_errors f xs h)

category_issues-OnlyErrors :
    (category : Text) (expected existing : List Text)
    → OnlyErrors (category_issues category expected existing)
unfolding category_issues
category_issues-OnlyErrors category expected existing =
    rw
      (
        all-append,
        map_errors (missing_workflow category) (difference expected existing) (λ x. refl),
        map_errors (extra_workflow category) (difference existing expected) (λ x. refl),
      )
      refl

catalog_quiet :
    (fs : Fs) (catalog : Dict Text (List Text))
    → NoErrors (catalog_issues fs catalog)
    → All
        (λ (category, expected).
          is_dir (category ∷ []) fs ≡ true
          → (w : Text) → contains expected w ≡ contains (dirs_below fs (category ∷ [])) w)
        catalog
catalog_quiet fs [] h = tt
catalog_quiet fs ((category, expected) ∷ rest) h =
    let parts = NoErrors-append _ (catalog_issues fs rest) h in
    let existing = dirs_below fs (category ∷ []) in
    (
      λ e. (category_issues_none_iff category expected existing).0 (
          OnlyErrors-silent (category_issues category expected existing)
            (category_issues-OnlyErrors category expected existing) (rw e at parts.0)),
      catalog_quiet fs rest parts.1,
    )

-- Every expected category is there, and every category of the explicit catalog has the workflows
-- that the catalog lists.
pub record IsCatalogued (fs : Fs) : Type 0 where
  pub categories :
      All (λ c. contains (map name_of (discover_category_dirs fs)) c ≡ true) all_expected_categories
  pub workflows :
      All
        (λ (category, expected).
          is_dir (category ∷ []) fs ≡ true
          → (w : Text) → contains expected w ≡ contains (dirs_below fs (category ∷ [])) w)
        explicit_catalog

pub check_catalog-IsCatalogued :
    (fs : Fs) → NoErrors (check_catalog_completeness fs) → IsCatalogued fs
unfolding check_catalog_completeness
check_catalog-IsCatalogued fs h =
    let parts =
      NoErrors-append
        (map missing_category (
          keep_if (λ c. not (contains (map name_of (discover_category_dirs fs)) c))
            all_expected_categories))
        _ h in
    record {
      categories =
          missing_categories_none (map name_of (discover_category_dirs fs)) all_expected_categories
            parts.0;
      workflows = catalog_quiet fs explicit_catalog (NoErrors-append _ _ parts.1).0;
    }
