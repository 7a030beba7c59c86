-- ===== src/Writer/Json.antt =====
-- Values of the `json` module, and what the writer uses of the standard library that is no code
-- of the repository: `hashlib.sha256`, `json.loads` and `json.dumps`.
use postgres_dbre.Prelude.{ℕ, Bool, true, false, Option, some, [], ◌∷◌, nat_beq}
use postgres_dbre.Prelude.Dict.{Dict}
use postgres_dbre.Prelude.{list_eq, nat_eq}
use postgres_dbre.Text.{Text}

-- An integer is `natural n` or, below 0, `negative n`. A float is given by its comparison with
-- the natural numbers, the one thing that the code asks of it.
mutual
  pub data Json : Type 0 where
    null : Json
    boolean : Bool → Json
    natural : ℕ → Json
    negative : ℕ → Json
    float : (ℕ → Bool) → Json
    str : Text → Json
    arr : Items → Json
    obj : Fields → Json

  pub data Items : Type 0 where
    nil : Items
    cons : Json → Items → Items

  pub data Fields : Type 0 where
    end : Fields
    field : Text → Json → Fields → Fields

abbrev pub entries : Fields → Dict Text Json
entries end = []
entries (field k v fs) = (k, v) ∷ entries fs

abbrev pub object : Dict Text Json → Fields
object [] = end
object ((k, v) ∷ d) = field k v (object d)

-- `value == n`, where `value` is `dict.get(...)`; Python's `True` equals 1 and `False` equals 0.
unfoldable pub equals_number : Option Json → ℕ → Bool
equals_number (some (natural m)) n = nat_beq m n
equals_number (some (float eq)) n = eq n
equals_number (some (boolean true)) n = nat_beq 1 n
equals_number (some (boolean false)) n = nat_beq 0 n
equals_number _ n = false

-- `loads s` is `none` where `json.loads` raises; `dumps` is `json.dumps(value, indent=2,
-- sort_keys=True)`; `sha256` is the hexadecimal digest of the text in UTF-8.
pub record Host : Type 0 where
  pub sha256 : Text → Text
  pub loads : Text → Option Json
  pub dumps : Json → Text
