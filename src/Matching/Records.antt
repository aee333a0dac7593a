-- ===== src/Matching/Records.antt =====
-- packages/matching_engine/models.py, and `normalize_record` of normalization.py.
use payment_ops.Prelude.{
  ℕ, String, Bool, Option, none, some, List, [], ◌∷◌, Text, str_eq, if◌then◌else◌,
}
use payment_ops.Prelude.Int.{ℤ}
use payment_ops.Unicode.{Unicode}
use payment_ops.Matching.Numbers.{Numbers}
use payment_ops.Matching.Normalize.{
  normalize_identifier, normalize_iban, normalize_bic, normalize_reference, normalize_currency,
  normalize_country,
}
use payment_ops.Matching.Names.{normalize_name}

pub data RecordType : Type 0 where
  payment expected_payment invoice ledger_entry account_event : RecordType

pub data FieldStatus : Type 0 where
  exact mismatch missing not_applicable : FieldStatus

pub data ComparisonType : Type 0 where
  exact fuzzy range not_compared : ComparisonType

pub data MatchClassification : Type 0 where
  matched possible_match unmatched review_required duplicate_candidate : MatchClassification

-- The fields that are compared, in the order of `_FIELD_SPECS`.
pub data Field : Type 0 where
  transaction_id end_to_end_id debtor_account creditor_account debtor_agent creditor_agent : Field
  currency country amount booking_date value_date remittance_reference external_reference : Field
  debtor_name creditor_name : Field

-- The key of a field in a policy's dictionaries.
abbrev pub key : Field → String
key transaction_id = "transaction_id"
key end_to_end_id = "end_to_end_id"
key debtor_account = "debtor_account"
key creditor_account = "creditor_account"
key debtor_agent = "debtor_agent"
key creditor_agent = "creditor_agent"
key currency = "currency"
key country = "country"
key amount = "amount"
key booking_date = "booking_date"
key value_date = "value_date"
key remittance_reference = "remittance_reference"
key external_reference = "external_reference"
key debtor_name = "debtor_name"
key creditor_name = "creditor_name"

-- `d.get(key, default)`
unfoldable pub get_or {ℓ} : {A : Type ℓ} → List (String × A) → String → A → A
get_or [] k default = default
get_or ((j, v) ∷ d) k default = if str_eq j k then v else get_or d k default

unfoldable pub get? {ℓ} : {A : Type ℓ} → List (String × A) → String → Option A
get? [] k = none
get? ((j, v) ∷ d) k = if str_eq j k then some v else get? d k

module _ (n : Numbers) where
  open n use {Float, Decimal, format_date}

  pub record MatchRecord : Type 0 where
    pub record_id : Text
    pub record_type : RecordType
    pub organization_id : Text
    pub instruction_id : Option Text
    pub end_to_end_id : Option Text
    pub transaction_id : Option Text
    pub amount : Option Decimal
    pub currency : Option Text
    pub booking_date : Option ℕ
    pub value_date : Option ℕ
    pub debtor_name : Option Text
    pub creditor_name : Option Text
    pub debtor_account : Option Text
    pub creditor_account : Option Text
    pub debtor_agent : Option Text
    pub creditor_agent : Option Text
    pub remittance_reference : Option Text
    pub external_reference : Option Text
    pub country : Option Text

  pub record MatchingPolicy : Type 0 where
    pub version : ℕ
    pub field_weights : List (String × Float)
    pub thresholds : List (String × Float)
    pub date_tolerances : List (String × ℤ)
    pub amount_tolerances : List (String × Float)
    pub critical_fields : List String
    pub fuzzy_algorithms : List (String × String)

  -- The normalised amount is the amount; every other value is a text.
  pub record NormalizedRecord : Type 0 where
    pub record_id : Text
    pub amount : Option Decimal
    pub text : Field → Option Text

  pub record FieldMatchResult : Type 0 where
    pub field : Field
    pub comparison_type : ComparisonType
    pub normalized_a : Option Text
    pub normalized_b : Option Text
    pub similarity : Float
    pub weight : Float
    pub critical : Bool
    pub status : FieldStatus
    pub explanation_code : String

  pub record CriticalConflict : Type 0 where
    pub code : String
    pub field : Field

  pub record MatchDecision : Type 0 where
    pub record_a_id : Text
    pub record_b_id : Text
    pub classification : MatchClassification
    pub match_score : Float
    pub critical_conflicts : List CriticalConflict
    pub field_results : List FieldMatchResult
    pub explanation_codes : List String
    pub policy_version : ℕ

  -- An empty text is `None` before the normaliser is asked.
  abbrev given : Option Text → Option Text
  given none = none
  given (some []) = none
  given (some (c ∷ s)) = some (c ∷ s)

  abbrev normalize_day : Option ℕ → Option Text
  normalize_day none = none
  normalize_day (some d) = some (format_date d)

  module _ (u : Unicode) where
    -- `_NORMALIZERS`
    unfoldable pub normalized_text : MatchRecord → Field → Option Text
    normalized_text r Field.transaction_id = normalize_identifier u (given r.transaction_id)
    normalized_text r Field.end_to_end_id = normalize_identifier u (given r.end_to_end_id)
    normalized_text r Field.debtor_account = normalize_iban u (given r.debtor_account)
    normalized_text r Field.creditor_account = normalize_iban u (given r.creditor_account)
    normalized_text r Field.debtor_agent = normalize_bic u (given r.debtor_agent)
    normalized_text r Field.creditor_agent = normalize_bic u (given r.creditor_agent)
    normalized_text r Field.currency = normalize_currency u (given r.currency)
    normalized_text r Field.country = normalize_country u (given r.country)
    normalized_text r Field.amount = none
    normalized_text r Field.booking_date = normalize_day r.booking_date
    normalized_text r Field.value_date = normalize_day r.value_date
    normalized_text r Field.remittance_reference =
        normalize_reference u (given r.remittance_reference)
    normalized_text r Field.external_reference = normalize_reference u (given r.external_reference)
    normalized_text r Field.debtor_name = normalize_name u (given r.debtor_name)
    normalized_text r Field.creditor_name = normalize_name u (given r.creditor_name)

    unfoldable pub normalize_record : MatchRecord → NormalizedRecord
    normalize_record r = record {
      record_id = r.record_id;
      amount = r.amount;
      text = normalized_text r;
    }
