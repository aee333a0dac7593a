-- ===== src/Unicode.antt =====
-- The `str` methods that the program calls. The Unicode tables behind `upper`, `casefold` and
-- `unicodedata.normalize` are data of Python's library: a record that the users take.
pub mod Ascii
use mathlib.Core.Option
use payment_ops.Prelude.{
  ℕ, zero, suc, ◌+◌, ◌-◌, ◌*◌, Bool, true, false, ◌&&◌, ◌||◌, Option, none, some, List, [], ◌∷◌,
  ◌++◌, reverse, leb, ltb, ◌==◌, Text, if◌then◌else◌,
}
use payment_ops.Prelude.Int.{ℤ, pos, negsuc}

pub record Unicode : Type 0 where
  -- A character's upper case and its case folding may be several characters.
  pub upper_char : ℕ → Text
  pub fold_char : ℕ → Text
  pub nfkc : Text → Text
  -- `s.lower()`: the final sigma makes it depend on the whole text.
  pub lower : Text → Text
  -- `c.isupper()`
  pub is_upper : ℕ → Bool
  -- The value of a decimal digit that is not ASCII.
  pub decimal : ℕ → Option ℕ

-- `str.isspace` of one character, which is also `\s` of a pattern on texts.
unfoldable pub is_space : ℕ → Bool
is_space c =
    (leb 9 c && leb c 13)
    || (leb 28 c && leb c 32)
    || (c == 0x85)
    || (c == 0xa0)
    || (c == 0x1680)
    || (leb 0x2000 c && leb c 0x200a)
    || (leb 0x2028 c && leb c 0x2029)
    || (c == 0x202f)
    || (c == 0x205f)
    || (c == 0x3000)

unfoldable pub lstrip : Text → Text
lstrip [] = []
lstrip (c ∷ s) = if is_space c then lstrip s else c ∷ s

-- `s.strip()`
unfoldable pub strip : Text → Text
strip s = reverse (lstrip (reverse (lstrip s)))

-- `s.replace(c, "")` for a text of the one character `c`.
unfoldable pub remove_char : ℕ → Text → Text
remove_char c [] = []
remove_char c (d ∷ s) = let rest = remove_char c s in if c == d then rest else d ∷ rest

-- `_WS_RE.sub(" ", s)`: a run of white space, of which the first character was or was not yet seen.
unfoldable pub squeeze : Bool → Text → Text
squeeze seen [] = []
squeeze seen (c ∷ s) = elim (is_space c) [
  | true ↦ elim seen [ true ↦ squeeze true s | false ↦ b' ' ∷ squeeze true s ]
  | false ↦ c ∷ squeeze false s
]

-- `_collapse`
unfoldable pub collapse : Text → Text
collapse s = strip (squeeze false s)

unfoldable pub translate : (ℕ → Text) → Text → Text
translate f [] = []
translate f (c ∷ s) = f c ++ translate f s

-- A character before the first piece: a separator begins a new piece.
unfoldable pub add_char : ℕ → ℕ → List Text → List Text
add_char sep c [] = if c == sep then [] ∷ [] else (c ∷ []) ∷ []
add_char sep c (piece ∷ pieces) = if c == sep then [] ∷ piece ∷ pieces else (c ∷ piece) ∷ pieces

abbrev negate : ℕ → ℤ
negate zero = pos 0
negate (suc n) = negsuc n

-- `s.split(sep)` for a text of one character.
unfoldable pub split_on : ℕ → Text → List Text
split_on sep [] = [] ∷ []
split_on sep (c ∷ s) = add_char sep c (split_on sep s)

-- `s.strip("[]")`
unfoldable pub lstrip_brackets : Text → Text
lstrip_brackets [] = []
lstrip_brackets (c ∷ s) = if (c == b'[') || (c == b']') then lstrip_brackets s else c ∷ s

unfoldable pub strip_brackets : Text → Text
strip_brackets s = reverse (lstrip_brackets (reverse (lstrip_brackets s)))

module _ (u : Unicode) where
  unfoldable pub digit : ℕ → Option ℕ
  digit c =
      if leb b'0' c && leb c b'9' then some (c - b'0') else if ltb c 128 then none else u.decimal c

  -- Digits, with single underscores between them; the flag says that a digit stands before.
  unfoldable pub parse_digits : Bool → ℕ → Text → Option ℕ
  parse_digits after value [] = if after then some value else none
  parse_digits after value (c ∷ s) =
      let skip = parse_digits false value s in
      elim (digit c) [
        | some d ↦ parse_digits true (value * 10 + d) s
        | none ↦ if (c == b'_') && after then skip else none
      ]

  unfoldable pub parse_signed : Text → Option ℤ
  parse_signed [] = none
  parse_signed (c ∷ s) =
      if c == b'-'
      then Option.map negate (parse_digits false 0 s)
      else if c == b'+'
      then Option.map pos (parse_digits false 0 s)
      else Option.map pos (parse_digits false 0 (c ∷ s))

  -- `int(s)`; `none` is a `ValueError`.
  unfoldable pub parse_int : Text → Option ℤ
  parse_int s = parse_signed (strip s)

module _ (u : Unicode) where
  -- `s.upper()`
  unfoldable pub upper : Text → Text
  upper s = translate u.upper_char s

  -- `s.casefold()`
  unfoldable pub casefold : Text → Text
  casefold s = translate u.fold_char s
