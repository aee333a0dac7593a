-- ===== src/Mapping/Transforms.antt =====
-- packages/mapping_engine/transforms.py: the named transforms of a value.
use payment_ops.Prelude.{
  String, Bool, not, ◌&&◌, ◌||◌, none, some, List, [], ◌∷◌, map, Text, str_eq, leb, ◌==◌,
  if◌then◌else◌, truthy, ℕ,
}
use payment_ops.Unicode.{Unicode, upper, strip, is_space}
use payment_ops.Domain.Countries.{normalize_country_name}
use payment_ops.Addresses.{normalize_whitespace}
use payment_ops.Matching.Numbers.{Numbers}
use payment_ops.Mapping.{Value, text, decimal, Library}

-- `sorted(_TRANSFORMS.keys())`
unfoldable pub supported_transforms : List String
supported_transforms =
    "collapse_whitespace" ∷ "company_suffix_normalization" ∷ "country_to_iso2" ∷ "lower"
    ∷ "normalize_bic_case" ∷ "normalize_iban_whitespace" ∷ "normalize_unicode" ∷ "parse_date"
    ∷ "parse_decimal" ∷ "remove_safe_punctuation" ∷ "trim" ∷ "upper" ∷ []

unfoldable pub keep_if : (ℕ → Bool) → Text → Text
keep_if p [] = []
keep_if p (c ∷ s) = let rest = keep_if p s in if p c then c ∷ rest else rest

-- `[A-Za-z0-9\s\-]`
unfoldable pub is_safe : ℕ → Bool
is_safe c =
    (leb b'A' c && leb c b'Z')
    || (leb b'a' c && leb c b'z')
    || (leb b'0' c && leb c b'9')
    || is_space c
    || (c == b'-')

-- `value.replace(",", ".")`
unfoldable pub comma_to_dot : Text → Text
comma_to_dot s = map (λ c. if c == b',' then b'.' else c) s

module _ (n : Numbers) (l : Library n) (u : Unicode) where
  unfoldable pub country_to_iso2 : Text → Text
  country_to_iso2 s = elim (normalize_country_name u s) [
    | none ↦ s
    | some code ↦ if truthy (some code) then code else s
  ]

  unfoldable pub to_decimal : Text → Value n
  to_decimal s = elim (l.parse_decimal (comma_to_dot (strip s))) [
    | none ↦ text s
    | some d ↦ decimal d
  ]

  unfoldable pub to_date : Text → Text
  to_date s = elim (l.parse_datetime (strip s)) [ none ↦ s | some day ↦ day ]

  -- The registered transforms on a text; another name gives the text back.
  unfoldable pub transform_text : String → Text → Value n
  transform_text name s =
      if str_eq name "trim"
      then text (strip s)
      else if str_eq name "collapse_whitespace"
      then text (normalize_whitespace s)
      else if str_eq name "upper"
      then text (upper u s)
      else if str_eq name "lower"
      then text (u.lower s)
      else if str_eq name "normalize_unicode"
      then text (u.nfkc s)
      else if str_eq name "remove_safe_punctuation"
      then text (keep_if is_safe s)
      else if str_eq name "country_to_iso2"
      then text (country_to_iso2 s)
      else if str_eq name "parse_decimal"
      then to_decimal s
      else if str_eq name "parse_date"
      then text (to_date s)
      else if str_eq name "normalize_iban_whitespace"
      then text (upper u (keep_if (λ c. not (is_space c)) s))
      else if str_eq name "normalize_bic_case"
      then text (upper u s)
      else if str_eq name "company_suffix_normalization"
      then text (strip s)
      else text s

  -- `transform`: a value that is no text stays as it is.
  unfoldable pub transform : String → Value n → Value n
  transform name (text s) = transform_text name s
  transform name v = v

  unfoldable pub apply_transforms : List String → Value n → Value n
  apply_transforms [] v = v
  apply_transforms (name ∷ names) v = apply_transforms names (transform name v)
