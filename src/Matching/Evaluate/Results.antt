-- ===== src/Matching/Evaluate/Results.antt =====
-- packages/matching_engine/matcher.py: the comparison of one field, and its explanation code.
use payment_ops.Prelude.{
  ℕ, ◌+◌, ◌-◌, String, Bool, true, false, Option, none, some, List, [], ◌∷◌, Text, text_eq, str_eq,
  leb, if◌then◌else◌, zero, suc,
}
use payment_ops.Prelude.Int.{ℤ, pos, negsuc}
use payment_ops.Matching.Numbers.{
  Numbers, Algorithm, ratio, partial_ratio, token_sort_ratio, token_set_ratio,
}
use payment_ops.Matching.Records.{FieldStatus, ComparisonType, Field, FieldMatchResult}

-- `_conflict_code`
unfoldable pub conflict_code : Field → String
conflict_code Field.currency = "MATCH-CRITICAL-CURRENCY-CONFLICT"
conflict_code Field.transaction_id = "MATCH-CRITICAL-TXID-CONFLICT"
conflict_code Field.debtor_account = "MATCH-CRITICAL-IBAN-CONFLICT"
conflict_code Field.creditor_account = "MATCH-CRITICAL-IBAN-CONFLICT"
conflict_code Field.amount = "MATCH-CRITICAL-AMOUNT-CONFLICT"
conflict_code _ = "MATCH-CRITICAL-CONFLICT"

-- `_exact_code`
unfoldable pub exact_code : Field → String
exact_code Field.transaction_id = "MATCH-TXID-EXACT"
exact_code Field.end_to_end_id = "MATCH-E2E-EXACT"
exact_code Field.debtor_account = "MATCH-IBAN-EXACT"
exact_code Field.creditor_account = "MATCH-IBAN-EXACT"
exact_code Field.debtor_agent = "MATCH-BIC-EXACT"
exact_code Field.creditor_agent = "MATCH-BIC-EXACT"
exact_code Field.currency = "MATCH-CURRENCY-EXACT"
exact_code Field.country = "MATCH-COUNTRY-EXACT"
exact_code Field.remittance_reference = "MATCH-REF-EXACT"
exact_code Field.external_reference = "MATCH-REF-EXACT"
exact_code Field.debtor_name = "MATCH-NAME-HIGH-SIMILARITY"
exact_code Field.creditor_name = "MATCH-NAME-HIGH-SIMILARITY"
exact_code _ = "MATCH-FIELD-EXACT"

-- `_ALGORITHMS.get(algorithm, fuzz.token_sort_ratio)`
unfoldable pub algorithm : String → Algorithm
algorithm name =
    if str_eq name "ratio"
    then ratio
    else if str_eq name "partial_ratio"
    then partial_ratio
    else if str_eq name "token_set_ratio"
    then token_set_ratio
    else token_sort_ratio

abbrev pub max_fuzzy_len : ℕ
max_fuzzy_len = 512

-- `s[:n]`
unfoldable pub take {ℓ} : {A : Type ℓ} → ℕ → List A → List A
take zero s = []
take (suc n) [] = []
take (suc n) (c ∷ s) = c ∷ take n s

-- `delta <= tolerance`, where a policy may give a negative tolerance.
abbrev pub within : ℕ → ℤ → Bool
within delta (pos t) = leb delta t
within delta (negsuc t) = false

-- `abs((da - db).days)`
abbrev pub distance : ℕ → ℕ → ℕ
distance a b = (a - b) + (b - a)

pub data Kind : Type 0 where
  identifier money day approximate : Kind

-- The second part of `_FIELD_SPECS`.
unfoldable pub kind : Field → Kind
kind Field.amount = money
kind Field.booking_date = day
kind Field.value_date = day
kind Field.remittance_reference = approximate
kind Field.external_reference = approximate
kind Field.debtor_name = approximate
kind Field.creditor_name = approximate
kind _ = identifier

-- The keys of `_FIELD_SPECS`, in order.
abbrev pub fields : List Field
fields =
    Field.transaction_id ∷ Field.end_to_end_id ∷ Field.debtor_account ∷ Field.creditor_account
    ∷ Field.debtor_agent ∷ Field.creditor_agent ∷ Field.currency ∷ Field.country ∷ Field.amount
    ∷ Field.booking_date ∷ Field.value_date ∷ Field.remittance_reference ∷ Field.external_reference
    ∷ Field.debtor_name ∷ Field.creditor_name ∷ []

abbrev pub is_name : Field → Bool
is_name Field.debtor_name = true
is_name Field.creditor_name = true
is_name _ = false

abbrev pub is_mismatch : FieldStatus → Bool
is_mismatch FieldStatus.mismatch = true
is_mismatch _ = false

abbrev pub is_missing : FieldStatus → Bool
is_missing FieldStatus.missing = true
is_missing _ = false

module _ (n : Numbers) where
  open n use {Float, Decimal}

  abbrev full : Float
  full = n.float 100

  abbrev zero_score : Float
  zero_score = n.float 0

  -- `_clamp_sim`: `min(100.0, max(0.0, value))`
  unfoldable pub clamp_sim : Float → Float
  clamp_sim value =
      let low = if n.lt zero_score value then value else zero_score in
      if n.lt low full then low else full

  -- `_sim`, where both texts are there.
  unfoldable pub sim : Text → Text → String → Float
  sim [] b name = zero_score
  sim (c ∷ a) [] name = zero_score
  sim (c ∷ a) (d ∷ b) name =
      clamp_sim (n.fuzz (algorithm name) (take max_fuzzy_len (c ∷ a)) (take max_fuzzy_len (d ∷ b)))

  unfoldable pub result :
      Field
      → ComparisonType
      → Option Text
      → Option Text
      → Float
      → Float
      → Bool
      → FieldStatus
      → String
      → FieldMatchResult n
  result field comparison a b similarity weight critical status code = record {
    field = field;
    comparison_type = comparison;
    normalized_a = a;
    normalized_b = b;
    similarity = similarity;
    weight = weight;
    critical = critical;
    status = status;
    explanation_code = code;
  }

  abbrev absent :
      Field → ComparisonType → Option Text → Option Text → Float → Bool → FieldMatchResult n
  absent field comparison a b weight critical =
      result field comparison a b zero_score weight critical FieldStatus.missing
        "MATCH-FIELD-MISSING"

  -- `_exact_result`
  unfoldable pub exact_result :
      Field → Option Text → Option Text → Float → Bool → String → FieldMatchResult n
  exact_result field (some a) (some b) weight critical ok_code =
      if text_eq a b
      then result field ComparisonType.exact (some a) (some b) full weight critical
          FieldStatus.exact ok_code
      else result field ComparisonType.exact (some a) (some b) zero_score weight critical
          FieldStatus.mismatch (conflict_code field)
  exact_result field a b weight critical ok_code =
      absent field ComparisonType.exact a b weight critical

  abbrev show_amount : Option Decimal → Option Text
  show_amount none = none
  show_amount (some d) = some (n.show_decimal d)

  -- `diff <= base * (tolerance / 100)`; without a tolerance nothing is within.
  unfoldable pub within_tolerance : Option Float → Decimal → Decimal → Bool
  within_tolerance none a b = false
  within_tolerance (some tolerance) a b =
      let base = n.dec_max (n.dec_max (n.dec_abs a) (n.dec_abs b)) (n.decimal 1) in
      n.dec_le (n.dec_abs (n.dec_sub a b))
        (n.dec_mul base (n.dec_div (n.of_float tolerance) (n.decimal 100)))

  -- `_amount_result`
  unfoldable pub amount_result :
      Field → Option Decimal → Option Decimal → Float → Bool → Option Float → FieldMatchResult n
  amount_result field (some a) (some b) weight critical tolerance =
      if n.dec_eq a b
      then result field ComparisonType.range (show_amount (some a)) (show_amount (some b)) full
          weight critical FieldStatus.exact "MATCH-AMOUNT-EXACT"
      else if within_tolerance tolerance a b
      then result field ComparisonType.range (show_amount (some a)) (show_amount (some b)) full
          weight critical FieldStatus.exact "MATCH-AMOUNT-WITHIN-TOLERANCE"
      else result field ComparisonType.range (show_amount (some a)) (show_amount (some b))
          zero_score weight critical FieldStatus.mismatch
          (if critical then "MATCH-CRITICAL-AMOUNT-CONFLICT" else "MATCH-AMOUNT-MISMATCH")
  amount_result field a b weight critical tolerance =
      absent field ComparisonType.range (show_amount a) (show_amount b) weight critical

  -- `_date_result` once both dates are read.
  unfoldable pub day_result :
      Field
      → Option Text
      → Option Text
      → Option ℕ
      → Option ℕ
      → Float
      → Bool
      → ℤ
      → FieldMatchResult n
  day_result field a b (some da) (some db) weight critical tolerance =
      if within (distance da db) tolerance
      then result field ComparisonType.range (some (n.format_date da)) (some (n.format_date db))
          full weight critical FieldStatus.exact "MATCH-DATE-WITHIN-TOLERANCE"
      else result field ComparisonType.range (some (n.format_date da)) (some (n.format_date db))
          zero_score weight critical FieldStatus.mismatch "MATCH-DATE-OUTSIDE-TOLERANCE"
  day_result field a b da db weight critical tolerance =
      result field ComparisonType.range a b zero_score weight critical FieldStatus.mismatch
        "MATCH-DATE-INVALID"

  -- `_date_result`
  unfoldable pub date_result :
      Field → Option Text → Option Text → Float → Bool → ℤ → FieldMatchResult n
  date_result field (some a) (some b) weight critical tolerance =
      day_result field (some a) (some b) (n.parse_date (take 10 a)) (n.parse_date (take 10 b))
        weight critical tolerance
  date_result field a b weight critical tolerance =
      absent field ComparisonType.range a b weight critical

  unfoldable pub similarity_code : Float → String
  similarity_code s =
      if n.le (n.float 85) s
      then "MATCH-NAME-HIGH-SIMILARITY"
      else if n.le (n.float 60) s
      then "MATCH-NAME-MEDIUM-SIMILARITY"
      else "MATCH-NAME-LOW-SIMILARITY"

  -- `_fuzzy_result`
  unfoldable pub fuzzy_result :
      Field → Option Text → Option Text → Float → Bool → String → String → FieldMatchResult n
  fuzzy_result field (some a) (some b) weight critical name ok_code =
      if text_eq a b
      then result field ComparisonType.fuzzy (some a) (some b) full weight critical
          FieldStatus.exact ok_code
      else let s = sim a b name in
        result field ComparisonType.fuzzy (some a) (some b) s weight critical
          (if n.le (n.float 85) s then FieldStatus.exact else FieldStatus.mismatch)
          (similarity_code s)
  fuzzy_result field a b weight critical name ok_code =
      absent field ComparisonType.fuzzy a b weight critical
