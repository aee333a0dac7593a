-- ===== src/Mapping/Selectors.antt =====
-- packages/mapping_engine/selectors.py: restricted JSON paths, and the texts that XPath finds.
use payment_ops.Prelude.{
  ℕ, zero, suc, ◌+◌, ◌*◌, Bool, true, false, ◌&&◌, ◌||◌, Option, none, some, List, [], ◌∷◌, ◌++◌,
  reverse, map, Text, text_eq, nonempty, leb, ◌==◌, if◌then◌else◌,
}
use payment_ops.Unicode.{Unicode, digit, strip}
use payment_ops.Matching.Numbers.{Numbers}
use payment_ops.Mapping.{
  Value, object, array, Items, end, item, Members, none_left, member, Library,
}

pub data Token : Type 0 where
  key : Text → Token
  index : ℕ → Token
  wildcard : Token

-- `[A-Za-z0-9_\-]`
unfoldable pub is_key_char : ℕ → Bool
is_key_char c =
    (leb b'A' c && leb c b'Z')
    || (leb b'a' c && leb c b'z')
    || (leb b'0' c && leb c b'9')
    || (c == b'_')
    || (c == b'-')

module _ (u : Unicode) where
  -- Digits up to a closing bracket: their value and their number.
  unfoldable pub bracketed : Bool → ℕ → ℕ → Text → Option (ℕ × ℕ)
  bracketed after value count [] = none
  bracketed after value count (c ∷ s) = elim (digit u c) [
    | some d ↦ bracketed true (value * 10 + d) (count + 1) s
    | none ↦ if after && (c == b']') then some (value, count) else none
  ]

  abbrev is_star : Text → Bool
  is_star (c ∷ d ∷ s) = (c == b'*') && (d == b']')
  is_star _ = false

  abbrev finish : Text → List Token → List Token
  finish [] tokens = tokens
  finish (c ∷ word) tokens = key (reverse (c ∷ word)) ∷ tokens

  -- `_tokenize`: how many characters belong to the bracket that was read last, and the characters
  -- of the key that is being read, in reverse.
  unfoldable pub tokenize_from : ℕ → Text → Text → List Token
  tokenize_from skip word [] = finish word []
  tokenize_from (suc skip) word (c ∷ s) = tokenize_from skip word s
  tokenize_from zero word (c ∷ s) = elim (is_key_char c) [
    | true ↦ tokenize_from zero (c ∷ word) s
    | false ↦ finish word (elim (c == b'[') [
      | true ↦ elim (is_star s) [
        | true ↦ wildcard ∷ tokenize_from 2 [] s
        | false ↦ elim (bracketed false 0 0 s) [
          | some (i, count) ↦ index i ∷ tokenize_from (count + 1) [] s
          | none ↦ tokenize_from zero [] s
        ]
      ]
      | false ↦ tokenize_from zero [] s
    ])
  ]

  unfoldable pub tokenize : Text → List Token
  tokenize path = tokenize_from zero [] path

module _ (n : Numbers) where
  -- `dict.get`
  unfoldable pub get_member : Text → Members n → Option (Value n)
  get_member name none_left = none
  get_member name (member k v rest) = if text_eq k name then some v else get_member name rest

  unfoldable pub items : Items n → List (Value n)
  items end = []
  items (item v rest) = v ∷ items rest

  unfoldable pub values : Members n → List (Value n)
  values none_left = []
  values (member k v rest) = v ∷ values rest

  unfoldable pub get_item : ℕ → Items n → Option (Value n)
  get_item i end = none
  get_item zero (item v rest) = some v
  get_item (suc i) (item v rest) = get_item i rest

  abbrev to_list : Option (Value n) → List (Value n)
  to_list none = []
  to_list (some v) = v ∷ []

  -- The values that a token finds in a value.
  unfoldable pub step : Token → Value n → List (Value n)
  step (key name) (object members) = to_list (get_member name members)
  step (index i) (array values) = to_list (get_item i values)
  step wildcard (array values) = items values
  step wildcard (object members) = values members
  step _ _ = []

  unfoldable pub step_all : Token → List (Value n) → List (Value n)
  step_all token [] = []
  step_all token (v ∷ vs) = step token v ++ step_all token vs

  unfoldable pub follow : List Token → List (Value n) → List (Value n)
  follow [] current = current
  follow (token ∷ tokens) current = follow tokens (step_all token current)

  unfoldable pub resolve_json_path : Unicode → Value n → Text → List (Value n)
  resolve_json_path u data_ path = follow (tokenize u path) (data_ ∷ [])

  unfoldable pub keep_nonempty : List Text → List Text
  keep_nonempty [] = []
  keep_nonempty (s ∷ ss) = if nonempty s then s ∷ keep_nonempty ss else keep_nonempty ss

  unfoldable pub resolve_xpath : (l : Library n) → l.Element → Text → List Text
  resolve_xpath l element path = elim (l.texts element path) [
    | none ↦ []
    | some found ↦ keep_nonempty (map strip found)
  ]
