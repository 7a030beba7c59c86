-- ===== src/Checks/Links/Followed.antt =====
-- When a link of a Markdown file is followed to something, without the code that looks it up.
use postgres_dbre.Prelude.{
  ℕ, ◌≡◌, ◌≢◌, ◌↔◌, refl, sym, ap, ◌∙◌, ◌⊎◌, inl, inr, Bool, true, false, ◌||◌, any, is_empty,
  Bool-cases, Option, none, some, Option-cases, List, [], ◌∷◌, ◌++◌, length, length-append, nat_beq,
  if◌then◌else◌, ◌==◌, ==_iff, nat_eq, list_eq, arith,
}
use postgres_dbre.Text.{Text, codes, after_prefix, starts_with}
use postgres_dbre.Os.{FilePath, Fs, exists}
use postgres_dbre.Writer.{names, is_absolute}
use postgres_dbre.Checks.{parent_of}
use postgres_dbre.Checks.Links.{
  span_until, is_hash, path_part, is_external, below, leads_out, resolve, resolve_link, below_root,
  is_present, is_resolved,
}

-- The text begins with the other.
abbrev pub BeginsWith : Text → Text → Type 0
BeginsWith p s = (rest : Text) × (s ≡ p ++ rest)

-- An address elsewhere, or a place in the page.
abbrev pub IsExternal : Text → Type 0
IsExternal target =
    ((((target ≡ []) ⊎ BeginsWith (codes "http://") target) ⊎ BeginsWith (codes "https://") target)
      ⊎ BeginsWith (codes "mailto:") target)
    ⊎ BeginsWith (codes "#") target

-- The part of a link before the first `#`.
pub record HasPath (target part : Text) : Type 0 where
  pub fragment : Text
  pub split : target ≡ part ++ fragment
  pub plain : any is_hash part ≡ false
  pub ends : (fragment ≡ []) ⊎ BeginsWith (codes "#") fragment

BeginsWith-iff : (p s : Text) → (starts_with s p ≡ true) ↔ BeginsWith p s
unfolding starts_with after_prefix
BeginsWith-iff [] s = (λ h. (s, refl), λ h. refl)
BeginsWith-iff (c ∷ p) [] = (λ h. cc h, λ (r, e). cc e)
BeginsWith-iff (c ∷ p) (d ∷ s) =
    let ih = BeginsWith-iff p s in
    elim (Bool-cases (nat_beq c d)) [
      | inl e ↦
          let same : c ≡ d = ground arith in
          rw e (λ h. let (r, at) = ih.0 h in (r, cc (same, at)), λ (r, at). ih.1 (r, cc at))
      | inr e ↦
          let differ : c ≢ d = ground arith in rw e (λ h. cc h, λ (r, at). absurd (differ (cc at)))
    ]

is_empty_iff {ℓ} : {A : Type ℓ} (s : List A) → (is_empty s ≡ true) ↔ (s ≡ [])
is_empty_iff [] = (λ h. refl, λ h. refl)
is_empty_iff (c ∷ s) = (λ h. cc h, λ h. cc h)

or_iff : {P Q : Type 0} (x y : Bool) → (x ≡ true) ↔ P → (y ≡ true) ↔ Q → ((x || y) ≡ true) ↔ (P ⊎ Q)
or_iff true y f g = (λ h. inl (f.0 refl), λ h. refl)
or_iff false y f g = (λ h. inr (g.0 h), λ h. elim h [ inl p ↦ cc (f.1 p) | inr q ↦ g.1 q ])

is_external_iff : (target : Text) → (is_external target ≡ true) ↔ IsExternal target
unfolding is_external
is_external_iff target =
    or_iff _ (starts_with target (codes "#"))
      (or_iff _ (starts_with target (codes "mailto:"))
        (or_iff _ (starts_with target (codes "https://"))
          (or_iff (is_empty target) (starts_with target (codes "http://")) (is_empty_iff target)
            (BeginsWith-iff (codes "http://") target))
          (BeginsWith-iff (codes "https://") target))
        (BeginsWith-iff (codes "mailto:") target))
      (BeginsWith-iff (codes "#") target)

path_part_hash : (c : ℕ) (s : Text) → is_hash c ≡ true → path_part (c ∷ s) ≡ []
unfolding path_part span_until
path_part_hash c s e = rw (path_part, e) refl

path_part_cons : (c : ℕ) (s : Text) → is_hash c ≡ false → path_part (c ∷ s) ≡ c ∷ path_part s
unfolding path_part span_until
path_part_cons c s e = rw (path_part, e) refl

path_part-HasPath : (target : Text) → HasPath target (path_part target)
unfolding path_part span_until
path_part-HasPath [] = record { fragment = []; split = refl; plain = refl; ends = inl refl }
path_part-HasPath (c ∷ s) =
    let later = path_part-HasPath s in
    elim (Bool-cases (is_hash c)) [
      | inl e ↦
          let same : c ≡ b'#' = ground arith in
          rw (path_part_hash c s e)
            (record { fragment = c ∷ s; split = refl; plain = refl; ends = inr (s, cc same) })
      | inr e ↦ rw (path_part_cons c s e) (record {
        fragment = later.fragment;
        split = ap (λ t. c ∷ t) later.split;
        plain = rw e later.plain;
        ends = later.ends;
      })
    ]

-- The part is determined by the link.
path_part_unique :
    (part fragment : Text)
    → any is_hash part ≡ false
    → (fragment ≡ []) ⊎ BeginsWith (codes "#") fragment
    → path_part (part ++ fragment) ≡ part
unfolding path_part span_until
path_part_unique [] fragment plain (inl e) = rw e refl
path_part_unique [] fragment plain (inr (r, e)) = rw e (path_part_hash b'#' r refl)
path_part_unique (c ∷ part) fragment plain ends = elim (Bool-cases (is_hash c)) [
  | inl e ↦ cc (rw e at plain)
  | inr e ↦
      path_part_cons c (part ++ fragment) e
      ∙ ap (λ p. c ∷ p) (path_part_unique part fragment (rw e at plain) ends)
]

-- What `below` finds stands above the root, and it finds all that does.
below-append : (root q r : FilePath) → below root q ≡ some r → q ≡ r ++ root
unfolding below
below-append root [] r h = elim (Bool-cases (is_empty root)) [
  | inl e ↦ let whole : r ≡ [] = cc (rw e at h) in rw (whole, (is_empty_iff root).0 e) refl
  | inr e ↦ cc (rw e at h)
]
below-append root (name ∷ dir) r h = elim (Bool-cases ((name ∷ dir) == root)) [
  | inl e ↦ let whole : r ≡ [] = cc (rw e at h) in rw whole ((==_iff (name ∷ dir) root).0 e)
  | inr e ↦
      let h' = rw e at h in
      elim (Option-cases (below root dir)) [
        | inl missing ↦ cc (rw missing at h')
        | inr (p, found) ↦
            let longer : r ≡ name ∷ p = cc (rw found at h') in
            rw longer (ap (λ d. name ∷ d) (below-append root dir p found))
      ]
]

append-below : (root r : FilePath) → below root (r ++ root) ≡ some r
unfolding below
append-below [] [] = refl
append-below (name ∷ dir) [] = rw ((==_iff (name ∷ dir) (name ∷ dir)).1 refl) refl
append-below root (name ∷ r) = elim (Bool-cases ((name ∷ (r ++ root)) == root)) [
  | inl e ↦ absurd (
      omega (
        arith,
        ap (length {A = Text}) ((==_iff (name ∷ (r ++ root)) root).0 e),
        length-append r root,
      ))
  | inr e ↦ rw (e, append-below root r) refl
]

module _ (root : FilePath) (fs : Fs) where
  -- Where names lead from a directory: `..` to its parent, any other name below it, and a symbolic
  -- link out of the tree.
  pub data Leads : FilePath → List Text → Option FilePath → Type 0 where
    arrived : {dir : FilePath} → Leads dir [] (some dir)
    up :
        {dir : FilePath} {rest : List Text} {end : Option FilePath} {name : Text}
        → name ≡ codes ".."
        → Leads (parent_of dir) rest end
        → Leads dir (name ∷ rest) end
    out :
        {dir : FilePath} {rest : List Text} {name : Text}
        → name ≢ codes ".."
        → leads_out fs (below root (name ∷ dir)) ≡ true
        → Leads dir (name ∷ rest) none
    down :
        {dir : FilePath} {rest : List Text} {end : Option FilePath} {name : Text}
        → name ≢ codes ".."
        → leads_out fs (below root (name ∷ dir)) ≡ false
        → Leads (name ∷ dir) rest end
        → Leads dir (name ∷ rest) end

  resolve-Leads : (dir : FilePath) (path : List Text) → Leads dir path (resolve root fs dir path)
  unfolding resolve
  resolve-Leads dir [] = arrived
  resolve-Leads dir (name ∷ rest) = elim (Bool-cases (name == codes "..")) [
    | inl e ↦ rw e (up ((==_iff name (codes "..")).0 e) (resolve-Leads (parent_of dir) rest))
    | inr e ↦
        let differ : name ≢ codes ".." = λ same. cc ((==_iff name (codes "..")).1 same, e) in
        elim (Bool-cases (leads_out fs (below root (name ∷ dir)))) [
          | inl l ↦ rw (e, l) (out differ l)
          | inr l ↦ rw (e, l) (down differ l (resolve-Leads (name ∷ dir) rest))
        ]
  ]

  Leads-resolve :
      {dir : FilePath} {path : List Text} {end : Option FilePath}
      → Leads dir path end
      → resolve root fs dir path ≡ end
  unfolding resolve
  Leads-resolve arrived = refl
  Leads-resolve (up {name = name} same later) =
      rw ((==_iff name (codes "..")).1 same) (Leads-resolve later)
  Leads-resolve (out {name = name} differ l) = elim (Bool-cases (name == codes "..")) [
    | inl e ↦ absurd (differ ((==_iff name (codes "..")).0 e))
    | inr e ↦ rw (e, l) refl
  ]
  Leads-resolve (down {name = name} differ l later) = elim (Bool-cases (name == codes "..")) [
    | inl e ↦ absurd (differ ((==_iff name (codes "..")).0 e))
    | inr e ↦ rw (e, l) (Leads-resolve later)
  ]

  -- Out of the tree, or to a path of it that exists.
  abbrev pub Arrives : Option FilePath → Type 0
  Arrives none = Unit
  Arrives (some q) =
      ((r : FilePath) → q ≢ r ++ root) ⊎ ((r : FilePath) × ((q ≡ r ++ root) × (exists r fs ≡ true)))

  -- A link in a file, stripped of white space: external, or the names of its part before the first
  -- `#` lead from the file's directory, or from the top, out of the tree or to what exists.
  abbrev pub IsFollowed : FilePath → Text → Type 0
  IsFollowed md_file target =
      IsExternal target
      ⊎ ((part : Text) × (HasPath target part
            × ((end : Option FilePath) × (Leads
                    (if is_absolute part then [] else parent_of md_file ++ root) (names part) end
                  × Arrives end))))

  Arrives-iff :
      (end : Option FilePath) → (is_present root fs (below_root root fs end) ≡ true) ↔ Arrives end
  Arrives-iff none = (λ h. tt, λ h. refl)
  Arrives-iff (some q) = elim (Option-cases (below root q)) [
    | inl e ↦ rw e (λ h. inl (λ r at. cc (append-below root r, ap (below root) at, e)), λ h. refl)
    | inr (r, e) ↦ rw e (
      λ h. inr (r, (below-append root q r e, h)),
      λ h. elim h [
        | inl outside ↦ absurd (outside r (below-append root q r e))
        | inr (r', (at, there)) ↦
            let same : r' ≡ r = cc (append-below root r', ap (below root) at, e) in
            ap (λ p. exists p fs) (sym same) ∙ there
      ],
    )
  ]

  or_true : (x : Bool) → (x || true) ≡ true
  or_true x = ground arith

  -- A link without a part before its first `#` is empty or a place in the page.
  page : {target part : Text} → part ≡ [] → HasPath target part → IsExternal target
  page empty has = elim has.ends [
    | inl none_left ↦ inl (inl (inl (inl (has.split ∙ rw (empty, none_left) refl))))
    | inr (r, at) ↦ inr (r, has.split ∙ rw empty at)
  ]

  -- What `is_resolved` tests is that the link is followed to something.
  pub is_resolved-IsFollowed :
      (md_file : FilePath) (target : Text)
      → (is_resolved root fs md_file target ≡ true) ↔ IsFollowed md_file target
  unfolding is_resolved resolve_link
  is_resolved-IsFollowed md_file target =
      let part = path_part target in
      let start = if is_absolute part then [] else parent_of md_file ++ root in
      let split = path_part-HasPath target in
      (
        λ h. elim (Bool-cases (is_external target)) [
          | inl e ↦ inl ((is_external_iff target).0 e)
          | inr e ↦ elim (Bool-cases (is_empty part)) [
            | inl none_left ↦ inl (page ((is_empty_iff part).0 none_left) split)
            | inr some_left ↦ inr (
              part,
              (
                split,
                (
                  resolve root fs start (names part),
                  (
                    resolve-Leads start (names part),
                    (Arrives-iff (resolve root fs start (names part))).0 (rw (e, some_left) at h),
                  ),
                ),
              ),
            )
          ]
        ],
        λ h. elim h [
          | inl external ↦ rw ((is_external_iff target).1 external) refl
          | inr (part', (has, (end, (leads, arrives)))) ↦
              let same : path_part target ≡ part' =
                ap path_part has.split ∙ path_part_unique part' has.fragment has.plain has.ends in
              rw (same, Leads-resolve leads, (Arrives-iff end).1 arrives) (or_true _)
        ],
      )
