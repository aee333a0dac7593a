-- ===== src/Matching/Numbers.antt =====
-- What the matching engine takes from Python's `float`, `Decimal` and `date`, and from rapidfuzz:
-- types and operations that are not the program's. A theorem states what it needs of them.
use payment_ops.Prelude.{ℕ, Bool, Option, Text}

pub data Algorithm : Type 0 where
  ratio partial_ratio token_sort_ratio token_set_ratio : Algorithm

pub record Numbers : Type 1 where
  pub Float : Type 0
  pub float : ℕ → Float
  pub add : Float → Float → Float
  pub mul : Float → Float → Float
  pub div : Float → Float → Float
  -- `round(x, 2)`
  pub round2 : Float → Float
  -- `bool(x)`
  pub nonzero : Float → Bool
  -- `x <= y`, `x < y`
  pub le : Float → Float → Bool
  pub lt : Float → Float → Bool
  pub Decimal : Type 0
  pub decimal : ℕ → Decimal
  pub dec_add : Decimal → Decimal → Decimal
  pub dec_sub : Decimal → Decimal → Decimal
  pub dec_mul : Decimal → Decimal → Decimal
  pub dec_div : Decimal → Decimal → Decimal
  pub dec_abs : Decimal → Decimal
  pub dec_max : Decimal → Decimal → Decimal
  pub dec_eq : Decimal → Decimal → Bool
  pub dec_le : Decimal → Decimal → Bool
  -- `Decimal(str(x))` and `str(d)`
  pub of_float : Float → Decimal
  pub show_decimal : Decimal → Text
  -- A date is the number of its day: `strftime("%Y-%m-%d")` and `date.fromisoformat`.
  pub format_date : ℕ → Text
  pub parse_date : Text → Option ℕ
  -- `rapidfuzz.fuzz`
  pub fuzz : Algorithm → Text → Text → Float
