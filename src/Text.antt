-- ===== src/Text.antt =====
-- `str` methods over code points.
use Prim.Native.Char.{code}
use Prim.Native.String.{String}
use postgres_dbre.Prelude.{
  ℕ, zero, suc, ◌+◌, ◌-◌, ◌/◌, ◌%◌, ◌≡◌, refl, Bool, true, false, ◌&&◌, ◌||◌, Option, none, some,
  List, [], ◌∷◌, ◌++◌, map, reverse, leb, ltb, nat_beq, if◌then◌else◌, nat_eq, list_eq,
}

abbrev pub Text : Type 0
Text = List ℕ

-- The code points of a literal.
abbrev pub codes : String → Text
codes String.[] = []
codes (String.◌∷◌ c s) = code c ∷ codes s

abbrev pub newline : ℕ
newline = b'\n'

-- `str.isspace` of one character, and `\s` of a pattern.
unfoldable pub is_space : ℕ → Bool
is_space c =
    (leb 9 c && leb c 13)
    || (leb 28 c && leb c 32)
    || nat_beq c 0x85
    || nat_beq c 0xa0
    || nat_beq c 0x1680
    || (leb 0x2000 c && leb c 0x200a)
    || nat_beq c 0x2028
    || nat_beq c 0x2029
    || nat_beq c 0x202f
    || nat_beq c 0x205f
    || nat_beq c 0x3000

unfoldable pub to_upper : ℕ → ℕ
to_upper c = if leb b'a' c && leb c b'z' then c - 32 else c

unfoldable pub to_lower : ℕ → ℕ
to_lower c = if leb b'A' c && leb c b'Z' then c + 32 else c

unfoldable pub upper : Text → Text
unfolding to_upper
upper = map to_upper

unfoldable pub lower : Text → Text
unfolding to_lower
lower = map to_lower

-- `s.lstrip(chars)`, `s.rstrip(chars)` and `s.strip(chars)`, the characters given by a test.
unfoldable pub lstrip : (ℕ → Bool) → Text → Text
lstrip p [] = []
lstrip p (c ∷ s) = if p c then lstrip p s else c ∷ s

unfoldable pub rstrip : (ℕ → Bool) → Text → Text
unfolding lstrip
rstrip p s = reverse (lstrip p (reverse s))

unfoldable pub strip : (ℕ → Bool) → Text → Text
unfolding lstrip rstrip
strip p s = rstrip p (lstrip p s)

-- What follows the prefix `p` of `s`, if it is one.
unfoldable pub after_prefix : Text → Text → Option Text
after_prefix [] s = some s
after_prefix (c ∷ p) [] = none
after_prefix (c ∷ p) (d ∷ s) = if nat_beq c d then after_prefix p s else none

abbrev pub is_some {ℓ} : {A : Type ℓ} → Option A → Bool
is_some none = false
is_some (some _) = true

-- `s.startswith(p)`
unfoldable pub starts_with : Text → Text → Bool
unfolding after_prefix
starts_with s p = is_some (after_prefix p s)

-- `p in s`
unfoldable pub has_text : Text → Text → Bool
unfolding starts_with
has_text p [] = starts_with [] p
has_text p (c ∷ s) = starts_with (c ∷ s) p || has_text p s

-- `sep.join(parts)`
unfoldable pub join : Text → List Text → Text
join sep [] = []
join sep (x ∷ []) = x
join sep (x ∷ y ∷ ys) = x ++ (sep ++ join sep (y ∷ ys))

abbrev pub cons_head : ℕ → List Text → List Text
cons_head c [] = (c ∷ []) ∷ []
cons_head c (x ∷ xs) = (c ∷ x) ∷ xs

-- `"".join(parts)`, for the text of a template.
unfoldable pub concat : List Text → Text
concat [] = []
concat (x ∷ xs) = x ++ concat xs

-- `s.split(sep)` for one separating character.
unfoldable pub split_on : ℕ → Text → List Text
split_on sep [] = [] ∷ []
split_on sep (c ∷ s) =
    let rest = split_on sep s in if nat_beq c sep then [] ∷ rest else cons_head c rest

-- `a <= b` of texts: by code points, a proper prefix first.
unfoldable pub text_le : Text → Text → Bool
text_le [] t = true
text_le (c ∷ s) [] = false
text_le (c ∷ s) (d ∷ t) = if ltb c d then true else if nat_beq c d then text_le s t else false

-- `str(n)`, by the decimal digits from the last one on; `suc n` digits are enough for `n`.
unfoldable pub digits_onto : ℕ → ℕ → Text → Text
digits_onto zero n acc = acc
digits_onto (suc f) n acc =
    let rest = digits_onto f (n / 10) ((b'0' + n % 10) ∷ acc) in
    if ltb n 10 then (b'0' + n) ∷ acc else rest

unfoldable pub str_of : ℕ → Text
unfolding digits_onto
str_of n = digits_onto (suc n) n []

upper_test : upper (codes "Read Only é") ≡ codes "READ ONLY é"
unfolding upper
upper_test = refl

strip_test : strip is_space (codes " \t a b\n") ≡ codes "a b"
unfolding strip is_space
strip_test = refl

split_test : split_on b'/' (codes "a//b/") ≡ codes "a" ∷ [] ∷ codes "b" ∷ [] ∷ []
unfolding split_on
split_test = refl

join_test : join (codes ", ") (codes "a" ∷ codes "b" ∷ []) ≡ codes "a, b"
unfolding join
join_test = refl

str_of_test : str_of 1070 ≡ codes "1070"
unfolding str_of
str_of_test = refl

has_text_test : has_text (codes "bc") (codes "abcd") ≡ true
unfolding has_text
has_text_test = refl
