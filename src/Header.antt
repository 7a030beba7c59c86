-- ===== src/Header.antt =====
-- tools/validation/sql_header.py: the header of a SQL file. The removal of comments and literals
-- is in Strip.
pub mod Strip
pub mod Find
pub mod RoundTrip
use postgres_dbre.Prelude.{
  ℕ, zero, suc, ◌+◌, ◌-◌, ◌≡◌, refl, Bool, true, false, not, ◌&&◌, ◌||◌, Option, none, some, List,
  [], ◌∷◌, ◌++◌, any, keep_if, is_empty, leb, nat_beq, if◌then◌else◌,
}
use postgres_dbre.Text.{
  Text, codes, newline, is_space, upper, strip, lstrip, after_prefix, starts_with, has_text,
}

unfoldable pub required_header_fields : List Text
required_header_fields =
    codes "SCRIPT NAME:"
    ∷ codes "PURPOSE:"
    ∷ codes "AURORA POSTGRESQL VERSION:"
    ∷ codes "EXECUTION LOCATION:"
    ∷ codes "SAFETY:"
    ∷ codes "EXPECTED IMPACT:"
    ∷ codes "REQUIRED PRIVILEGES:"
    ∷ codes "PREREQUISITES:"
    ∷ codes "EXECUTION ORDER:"
    ∷ codes "RELATED SCRIPTS:"
    ∷ codes "HOW TO INTERPRET RESULTS:"
    ∷ []

unfoldable pub known_safety_labels : List Text
known_safety_labels =
    codes "READ ONLY" ∷ codes "LOW RISK WRITE" ∷ codes "ELEVATED RISK" ∷ codes "DESTRUCTIVE" ∷ []

pub record SqlHeader : Type 0 where
  pub found : Bool
  pub raw_text : Text
  pub missing_fields : List Text
  pub safety_label : Option Text
  pub safety_label_recognized : Bool

abbrev cons_found : ℕ → Option (Text × Text) → Option (Text × Text)
cons_found c none = none
cons_found c (some (before, after)) = some (c ∷ before, after)

-- What stands before and after the first occurrence of `stop`.
abbrev or_found : Option Text → Option (Text × Text) → Option (Text × Text)
or_found (some after) later = some ([], after)
or_found none later = later

unfoldable pub until : Text → Text → Option (Text × Text)
until stop [] = or_found (after_prefix stop []) none
until stop (c ∷ s) = or_found (after_prefix stop (c ∷ s)) (cons_found c (until stop s))

-- `_HEADER_BLOCK_RE.match(content)`, its group.
abbrev pub before_of : Option (Text × Text) → Option Text
before_of none = none
before_of (some (before, after)) = some before

abbrev block_text : Option Text → Option Text
block_text none = none
block_text (some s) = before_of (until (codes "*/") s)

unfoldable pub header_block : Text → Option Text
header_block content = block_text (after_prefix (codes "/*") (lstrip is_space content))

-- The longest prefix without `\r` and `\n`.
unfoldable pub first_line : Text → Text
first_line [] = []
first_line (c ∷ s) =
    let rest = first_line s in if nat_beq c b'\r' || nat_beq c newline then [] else c ∷ rest

-- After white space `seen` a newline or not, the stripped group of `\s*\r?\n\s*([^\r\n]+)`: the
-- first line of what follows the white space. At the end of the text the group can only be white
-- space, and needs a character other than `\r` and `\n` behind a newline.
unfoldable pub value_after : Bool → Bool → Text → Option Text
value_after seen blank [] = if blank then some [] else none
value_after seen blank (c ∷ s) =
    let next =
      value_after (seen || nat_beq c newline)
        (blank || (seen && not (nat_beq c b'\r' || nat_beq c newline))) s in
    if is_space c then next else if seen then some (strip is_space (first_line (c ∷ s))) else none

abbrev or_later {ℓ} : {A : Type ℓ} → Option A → Option A → Option A
or_later (some a) later = some a
or_later none later = later

abbrev value_of : Option Text → Option Text
value_of none = none
value_of (some s) = value_after false false s

-- `_SAFETY_VALUE_RE.search(header_text)`, its group stripped.
unfoldable pub find_safety : Text → Option Text
find_safety [] = none
find_safety (c ∷ s) =
    let later = find_safety s in or_later (value_of (after_prefix (codes "SAFETY:") (c ∷ s))) later

abbrev recognized : Option Text → Bool
recognized none = false
recognized (some label) = any (starts_with (upper label)) known_safety_labels

unfoldable pub missing_from : Text → List Text
missing_from header_text = keep_if (λ f. not (has_text f header_text)) required_header_fields

abbrev of_block : Option Text → SqlHeader
of_block none = record {
  found = false;
  raw_text = [];
  missing_fields = required_header_fields;
  safety_label = none;
  safety_label_recognized = false;
}
of_block (some header_text) = record {
  found = true;
  raw_text = header_text;
  missing_fields = missing_from header_text;
  safety_label = find_safety header_text;
  safety_label_recognized = recognized (find_safety header_text);
}

unfoldable pub parse_sql_header : Text → SqlHeader
parse_sql_header content = of_block (header_block content)
