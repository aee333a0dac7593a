-- ===== src/Addresses.antt =====
-- packages/address_engine: the deterministic provider (providers/cloudnova.py, normalization.py,
-- readiness.py) and the fallback between providers (providers/fallback.py).
pub mod Ready
pub mod Remote
pub mod Valid
mod Tests
use payment_ops.Prelude.{
  ℕ, ◌+◌, String, Bool, true, false, not, ◌&&◌, ◌||◌, Option, none, some, List, [], ◌∷◌, ◌++◌,
  reverse, Text, codes, text_eq, option_text_eq, truthy, is_some, nonempty, length, leb,
  if◌then◌else◌,
}
use payment_ops.Unicode.{Unicode, is_space, strip, upper, split_on}
use payment_ops.Domain.Payment.{
  AddressReadiness, ready, repairable, review_required, unresolved, EvidenceLevel, high, medium,
  low, PostalAddress,
}
use payment_ops.Domain.Countries.{is_valid_country_code, normalize_country_name}
use payment_ops.Matching.Names.{join_tokens}

-- The fields that no provider of the file fills in are left out.
pub record AddressAnalysis : Type 0 where
  pub provider : String
  pub country_code : Option Text
  pub country_name : Option Text
  pub town_name : Option Text
  pub normalized_fields : List (String × Text)
  pub readiness : AddressReadiness
  pub evidence_level : EvidenceLevel
  pub available : Bool
  pub note : Option Text
  pub fallback : Bool
  pub evidence : List Text

-- `value.split()`, with the characters of the current word in reverse.
unfoldable pub split_words : Text → Text → List Text
split_words word [] = if nonempty word then reverse word ∷ [] else []
split_words word (c ∷ s) = elim (is_space c) [
  | true ↦ elim word [ [] ↦ split_words [] s | d ∷ w ↦ reverse (d ∷ w) ∷ split_words [] s ]
  | false ↦ split_words (c ∷ word) s
]

unfoldable pub normalize_whitespace : Text → Text
normalize_whitespace s = join_tokens (split_words [] s)

-- The stripped pieces that are not empty.
unfoldable pub strip_pieces : List Text → List Text
strip_pieces [] = []
strip_pieces (piece ∷ pieces) =
    if nonempty (strip piece) then strip piece ∷ strip_pieces pieces else strip_pieces pieces

-- `_split_commas`
unfoldable pub split_commas : Text → List Text
split_commas value = strip_pieces (split_on b',' value)

-- What a country field leads to: a code that was valid, one found by a name or in the lines, or none.
pub data CountryFound : Type 0 where
  valid derived : Text → CountryFound
  unknown : CountryFound

abbrev country_code_of : CountryFound → Option Text
country_code_of (valid code) = some code
country_code_of (derived code) = some code
country_code_of unknown = none

abbrev pub country_ok : CountryFound → Bool
country_ok (valid _) = true
country_ok _ = false

abbrev pub country_repairable : CountryFound → Bool
country_repairable (derived _) = true
country_repairable _ = false

abbrev derived_or_unknown : Option Text → CountryFound
derived_or_unknown none = unknown
derived_or_unknown (some code) = derived code

-- A candidate for a town: two to 35 characters, the first a capital.
unfoldable pub is_town : Unicode → Option Text → Bool
is_town u none = false
is_town u (some []) = false
is_town u (some (c ∷ s)) = leb 2 (length (c ∷ s)) && leb (length (c ∷ s)) 35 && u.is_upper c

unfoldable pub classify_readiness :
    (country_ok town_ok country_repairable town_repairable has_signal : Bool) → AddressReadiness
classify_readiness ok_c ok_t repair_c repair_t signal =
    if ok_c && ok_t
    then ready
    else if repair_c || repair_t
    then repairable
    else if signal
    then review_required
    else unresolved

-- `_overall_level`
unfoldable pub overall_level : (ok_c repair_c ok_t repair_t : Bool) → EvidenceLevel
overall_level ok_c repair_c ok_t repair_t =
    if (ok_c || repair_c) && (ok_t || repair_t)
    then high
    else if ok_c || repair_c || ok_t || repair_t
    then medium
    else low

module _ (u : Unicode) where
  unfoldable pub country_of_token : Text → Option Text
  country_of_token token =
      let t = normalize_whitespace (u.nfkc token) in
      if is_valid_country_code (upper u t) then some (upper u t) else normalize_country_name u t

  unfoldable pub country_in_tokens : List Text → Option Text
  country_in_tokens [] = none
  country_in_tokens (token ∷ tokens) = elim (country_of_token token) [
    | none ↦ country_in_tokens tokens
    | some code ↦ some code
  ]

  -- `extract_country_from_lines`: the evidence level is medium where a code is found.
  unfoldable pub extract_country_from_lines : List Text → Option Text
  extract_country_from_lines [] = none
  extract_country_from_lines (line ∷ lines) = elim (country_in_tokens (split_commas line)) [
    | none ↦ extract_country_from_lines lines
    | some code ↦ some code
  ]

  -- `_is_country_token`
  unfoldable pub is_country_token : Option Text → Text → Bool
  is_country_token country token =
      let t = normalize_whitespace token in
      is_valid_country_code (upper u t)
      || is_some (normalize_country_name u t)
      || (truthy country && option_text_eq (some (upper u t)) country)

  -- The token before the first country that has a town before it.
  unfoldable pub town_in_tokens : Option Text → Option Text → List Text → Option Text
  town_in_tokens country before [] = none
  town_in_tokens country before (token ∷ tokens) =
      if is_country_token country token && is_town u before
      then before
      else town_in_tokens country (some token) tokens

  unfoldable pub extract_town_from_lines : Option Text → List Text → Option Text
  extract_town_from_lines country [] = none
  extract_town_from_lines country (line ∷ lines) =
      elim (town_in_tokens country none (split_commas line)) [
        | none ↦ extract_town_from_lines country lines
        | some town ↦ some town
      ]

  -- The country resolution of `analyze`.
  unfoldable pub resolve_country : Option Text → List Text → CountryFound
  resolve_country (some (c ∷ s)) lines =
      if is_valid_country_code (c ∷ s)
      then valid (upper u (c ∷ s))
      else derived_or_unknown (normalize_country_name u (c ∷ s))
  resolve_country _ lines = derived_or_unknown (extract_country_from_lines lines)

  abbrev quoted : String → Text → String → Text
  quoted before value behind = codes before ++ (value ++ codes behind)

  unfoldable pub country_note : Option Text → CountryFound → Option Text
  country_note country (valid _) = some (codes "valid ISO alpha-2 code")
  country_note (some (c ∷ s)) (derived _) = some (quoted "normalised from name '" (c ∷ s) "'")
  country_note (some (c ∷ s)) unknown = some (quoted "unknown country value '" (c ∷ s) "'")
  country_note _ (derived _) = some (codes "derived from address line")
  country_note _ unknown = none

  unfoldable pub country_evidence : Option Text → CountryFound → List Text
  country_evidence country (valid _) = codes "country is a valid ISO alpha-2 code (HIGH)" ∷ []
  country_evidence (some (c ∷ s)) (derived code) =
      (quoted "country name '" (c ∷ s) "' normalised to " ++ (code ++ codes " (HIGH)")) ∷ []
  country_evidence (some (c ∷ s)) unknown =
      quoted "country value '" (c ∷ s) "' not recognised (LOW)" ∷ []
  country_evidence _ (derived _) = codes "country derived from address line (MEDIUM)" ∷ []
  country_evidence _ unknown = []

abbrev source_town : PostalAddress → Option Text
source_town a = elim a.town_name [
  | none ↦ none
  | some s ↦ if nonempty s then some (normalize_whitespace s) else none
]

abbrev entry_of : String → Option Text → List (String × Text)
entry_of key none = []
entry_of key (some []) = []
entry_of key (some (c ∷ s)) = (key, c ∷ s) ∷ []

abbrev town_evidence : (ok repair : Bool) → List Text
town_evidence true repair = codes "town present in source (HIGH)" ∷ []
town_evidence false true = codes "town derived from address line (MEDIUM)" ∷ []
town_evidence false false = []

abbrev note_of_derived : CountryFound → Option Text → Option Text
note_of_derived (derived _) text = text
note_of_derived _ text = none

-- The analysis once country and town are resolved.
unfoldable pub conclude :
    PostalAddress
    → CountryFound
    → (town_ok town_repairable : Bool) → Option Text
    → Option Text
    → List Text
    → AddressAnalysis
conclude a found town_ok town_repairable town note evidence = record {
  provider = "cloudnova";
  country_code = country_code_of found;
  country_name = note_of_derived found note;
  town_name = town;
  normalized_fields = entry_of "country" (country_code_of found) ++ entry_of "town_name" town;
  readiness =
      classify_readiness (country_ok found) town_ok (country_repairable found) town_repairable
        (truthy a.country || truthy (source_town a) || nonempty a.address_lines);
  evidence_level =
      overall_level (country_ok found) (country_repairable found) town_ok town_repairable;
  available = true;
  note = note;
  fallback = false;
  evidence = evidence ++ town_evidence town_ok town_repairable;
}

-- `CloudNovaAddressProvider.analyze`
unfoldable pub analyze : Unicode → PostalAddress → AddressAnalysis
analyze u a =
    let found = resolve_country u a.country a.address_lines in
    let town = extract_town_from_lines u (country_code_of found) a.address_lines in
    let town_ok = truthy (source_town a) in
    conclude a found town_ok (not town_ok && truthy town) (if town_ok then source_town a else town)
      (country_note u a.country found) (country_evidence u a.country found)

-- `FallbackAddressProvider.analyze`, with the count of the fallbacks.
unfoldable pub analyze_with_fallback :
    (PostalAddress → AddressAnalysis)
    → (PostalAddress → AddressAnalysis)
    → PostalAddress
    → ℕ
    → AddressAnalysis × ℕ
analyze_with_fallback primary fallback a count =
    if (primary a).available then (primary a, count) else (
      record (fallback a) {
        fallback = true;
        note = some (codes "ADDRESS_PROVIDER_FALLBACK");
        evidence =
            (fallback a).evidence ++ codes "primary provider unavailable; CloudNova fallback" ∷ [];
      },
      count + 1,
    )
