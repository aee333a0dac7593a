-- ===== src/Matching/Names.antt =====
-- packages/matching_engine/normalization.py: names of parties, with the spellings of legal forms.
use payment_ops.Prelude.{
  ℕ, String, Bool, true, false, ◌&&◌, ◌||◌, Option, none, some, List, [], ◌∷◌, ◌++◌, map, reverse,
  Text, codes, text_eq, leb, ◌==◌, if◌then◌else◌, or_none, find, length,
}
use payment_ops.Unicode.{Unicode, split_on, strip, collapse, upper, casefold}

-- `_COMPANY_SUFFIXES`
unfoldable pub company_suffixes : List (String × String)
company_suffixes =
    ("spa", "SPA")
    ∷ ("s.p.a.", "SPA")
    ∷ ("s p a", "SPA")
    ∷ ("srl", "SRL")
    ∷ ("s.r.l.", "SRL")
    ∷ ("s r l", "SRL")
    ∷ ("ltd", "LTD")
    ∷ ("limited", "LTD")
    ∷ ("gmbh", "GMBH")
    ∷ ("inc", "INC")
    ∷ ("incorporated", "INC")
    ∷ ("llc", "LLC")
    ∷ ("l.l.c.", "LLC")
    ∷ ("bv", "BV")
    ∷ ("n.v.", "NV")
    ∷ ("ag", "AG")
    ∷ []

abbrev suffix_of : Option (String × String) → Option Text
suffix_of none = none
suffix_of (some (_, suffix)) = some (codes suffix)

unfoldable pub company_suffix : Text → Option Text
company_suffix token = suffix_of (find (λ entry. text_eq (codes entry.0) token) company_suffixes)

-- `s.replace(c, " ")`
unfoldable pub blank : ℕ → Text → Text
blank c [] = []
blank c (d ∷ s) = (if d == c then b' ' else d) ∷ blank c s

abbrev is_letter : Text → Bool
is_letter token = length token == 1

abbrev replace_last : Option Text → List Text → List Text → List Text
replace_last none tokens rest = tokens
replace_last (some suffix) tokens rest = suffix ∷ rest

unfoldable pub join_tokens : List Text → Text
join_tokens [] = []
join_tokens (t ∷ []) = t
join_tokens (t ∷ s ∷ ts) = t ++ b' ' ∷ join_tokens (s ∷ ts)

-- `[0-9A-Za-zÀ-ÿ ]`
unfoldable pub is_name_char : ℕ → Bool
is_name_char c =
    (leb b'0' c && leb c b'9')
    || (leb b'A' c && leb c b'Z')
    || (leb b'a' c && leb c b'z')
    || (leb 0xc0 c && leb c 0xff)
    || (c == b' ')

-- `_PUNCT_RE.sub(" ", s)`: a run of other characters becomes one blank.
unfoldable pub drop_punctuation : Bool → Text → Text
drop_punctuation seen [] = []
drop_punctuation seen (c ∷ s) = elim (is_name_char c) [
  | true ↦ c ∷ drop_punctuation false s
  | false ↦ elim seen [ true ↦ drop_punctuation true s | false ↦ b' ' ∷ drop_punctuation true s ]
]

module _ (u : Unicode) where
  -- On the tokens in reverse: three single letters at the end that form a suffix are one token.
  unfoldable pub merge_three : List Text → List Text
  merge_three (c ∷ b ∷ a ∷ rest) =
      if is_letter a && is_letter b && is_letter c
      then replace_last (company_suffix (u.lower (a ++ (b ++ c)))) (c ∷ b ∷ a ∷ rest) rest
      else c ∷ b ∷ a ∷ rest
  merge_three tokens = tokens

  unfoldable pub merge_two : List Text → List Text
  merge_two (b ∷ a ∷ rest) =
      if is_letter a && is_letter b
      then replace_last (company_suffix (u.lower (a ++ b))) (b ∷ a ∷ rest) rest
      else b ∷ a ∷ rest
  merge_two tokens = tokens

  unfoldable pub canonical_token : Text → Text
  canonical_token token = elim (company_suffix (u.lower token)) [ none ↦ token | some s ↦ s ]

  -- `_normalize_company_suffix`
  unfoldable pub normalize_company_suffix : Text → Text
  normalize_company_suffix name =
      let compact = strip (blank b',' (blank b'.' name)) in
      let tokens = split_on b' ' (upper u (collapse compact)) in
      join_tokens (map canonical_token (reverse (merge_two (merge_three (reverse tokens)))))

  unfoldable pub normalize_name : Option Text → Option Text
  normalize_name none = none
  normalize_name (some s) = or_none (
      casefold u
        (collapse (drop_punctuation false (normalize_company_suffix (collapse (u.nfkc s))))))
