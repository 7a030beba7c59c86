-- ===== src/Regex.antt =====
-- The part of Python's `re` that the patterns of checks.py need: a backtracking matcher that lists
-- the ends of all matches at a place, the preferred one first. Letters are the ASCII ones.
pub mod Places
pub mod Matching
pub mod Found
use postgres_dbre.Prelude.{
  ℕ, zero, suc, ◌≡◌, refl, Bool, true, false, not, ◌&&◌, ◌||◌, Option, none, some, List, [], ◌∷◌,
  ◌++◌, leb, nat_beq, length, is_empty, if◌then◌else◌,
}
use postgres_dbre.Text.{Text, codes, is_space, to_lower}

-- `many r` is the greedy `r*`; `boundary` is `\b`.
pub data Regex : Type 0 where
  empty : Regex
  one : (ℕ → Bool) → Regex
  seq : Regex → Regex → Regex
  either : Regex → Regex → Regex
  many : Regex → Regex
  boundary : Regex

-- A place in a text: the character before it, if any, and the rest.
pub record Place : Type 0 where
  pub before : Option ℕ
  pub rest : Text

abbrev is_word : ℕ → Bool
is_word c =
    (leb b'0' c && leb c b'9')
    || (leb b'A' c && leb c b'Z')
    || (leb b'a' c && leb c b'z')
    || nat_beq c b'_'

abbrev pub word_before : Option ℕ → Bool
word_before none = false
word_before (some c) = is_word c

abbrev pub word_after : Text → Bool
word_after [] = false
word_after (c ∷ _) = is_word c

abbrev pub differs : Bool → Bool → Bool
differs true b = not b
differs false b = b

abbrev pub step : (ℕ → Bool) → Text → List Place
step p [] = []
step p (c ∷ s) = if p c then record { before = some c; rest = s } ∷ [] else []

abbrev pub flat : (Place → List Place) → List Place → List Place
flat f [] = []
flat f (x ∷ xs) = f x ++ flat f xs

-- As many rounds as there is fuel; the rest of the text has no more than its length.
abbrev pub rounds : ℕ → (Place → List Place) → Place → List Place
rounds zero f at = at ∷ []
rounds (suc n) f at = flat (rounds n f) (f at) ++ (at ∷ [])

unfoldable pub ends : Regex → Place → List Place
ends empty at = at ∷ []
ends (one p) at = step p at.rest
ends (seq r q) at = flat (ends q) (ends r at)
ends (either r q) at = ends r at ++ ends q at
ends (many r) at = rounds (length at.rest) (ends r) at
ends boundary at = if differs (word_before at.before) (word_after at.rest) then at ∷ [] else []

-- `pattern.search(text)` finds something.
unfoldable pub search_from : Regex → Option ℕ → Text → Bool
unfolding ends
search_from r before [] = not (is_empty (ends r (record { before = before; rest = [] })))
search_from r before (c ∷ s) =
    not (is_empty (ends r (record { before = before; rest = c ∷ s }))) || search_from r (some c) s

unfoldable pub search_in : Regex → Text → Bool
unfolding search_from
search_in r s = search_from r none s

-- A literal, with and without regard to case.
abbrev pub literal : Text → Regex
literal [] = empty
literal (c ∷ s) = seq (one (nat_beq c)) (literal s)

abbrev pub caseless : Text → Regex
caseless [] = empty
caseless (c ∷ s) = seq (one (λ d. nat_beq (to_lower c) (to_lower d))) (caseless s)

-- `\s+`, `\s*` and `\S+`
abbrev pub spaces : Regex
spaces = seq (one is_space) (many (one is_space))

abbrev pub some_spaces : Regex
some_spaces = many (one is_space)

abbrev pub visible : Regex
visible = seq (one (λ c. not (is_space c))) (many (one (λ c. not (is_space c))))

abbrev pub one_of : List Text → Regex
one_of [] = one (λ _. false)
one_of (w ∷ []) = caseless w
one_of (w ∷ v ∷ ws) = either (caseless w) (one_of (v ∷ ws))

-- `\bFIRST\s+SECOND\b`
abbrev pub phrase : Text → Regex → Regex
phrase first second = seq boundary (seq (caseless first) (seq spaces (seq second boundary)))

search_test :
    search_in
      (phrase (codes "DROP") (one_of (codes "TABLE" ∷ codes "INDEX" ∷ [])))
      (codes "x; drop \n index y")
    ≡ true
unfolding search_in is_space to_lower
search_test = refl

search_boundary_test :
    search_in (phrase (codes "DROP") (one_of (codes "TABLE" ∷ []))) (codes "drop tables") ≡ false
unfolding search_in is_space to_lower
search_boundary_test = refl
