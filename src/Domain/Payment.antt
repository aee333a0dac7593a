-- ===== src/Domain/Payment.antt =====
-- The payment side of packages/payment_domain/models.py.
use payment_ops.Prelude.{ℕ, List, Option, none, some, String, Text, length, ◌==◌, if◌then◌else◌}
use payment_ops.Prelude.Int.{ℤ}

pub data AddressReadiness : Type 0 where
  ready repairable review_required unresolved : AddressReadiness

pub data EvidenceLevel : Type 0 where
  high medium low : EvidenceLevel

pub data CandidateStatus : Type 0 where
  proposed validated review_required unresolved : CandidateStatus

pub data SourceFormat : Type 0 where
  xml_pacs_008 xml_pacs_009 xml_pain_001 xml_camt_053 xml_camt_054 : SourceFormat
  json csv api unknown : SourceFormat

pub data ValidationStatus : Type 0 where
  pending valid invalid construction rejected : ValidationStatus

-- `amount_minor` is in minor units. The length of the currency is checked when an amount is made
-- (`new_amount`), and not when the field is assigned to.
pub record MonetaryAmount : Type 0 where
  pub amount_minor : ℤ
  pub currency : Text

-- `MonetaryAmount(amount_minor=..., currency=...)`; `none` is the `ValidationError` of a currency
-- that has not three characters.
unfoldable pub new_amount : ℤ → Text → Option MonetaryAmount
new_amount minor currency =
    if length currency == 3
    then some (record { amount_minor = minor; currency = currency })
    else none

pub record PostalAddress : Type 0 where
  pub street_name : Option Text
  pub building_number : Option Text
  pub postcode : Option Text
  pub town_name : Option Text
  pub country : Option Text
  pub country_name : Option Text
  pub address_lines : List Text
  pub source_path : Option Text
  pub readiness : AddressReadiness
  pub evidence_level : EvidenceLevel
  pub original_fields : List (String × Text)
  pub normalized_fields : List (String × Text)

pub record Account : Type 0 where
  pub iban : Option Text
  pub other_identification : Option Text
  pub currency : Option Text
  pub name : Option Text
  pub source_path : Option Text

pub record FinancialInstitution : Type 0 where
  pub bic : Option Text
  pub clearing_system_member : Option Text
  pub name : Option Text
  pub postal_address : Option PostalAddress
  pub source_path : Option Text

pub record Party : Type 0 where
  pub name : Option Text
  pub identification : List Text
  pub postal_address : Option PostalAddress
  pub account : Option Account
  pub financial_institution : Option FinancialInstitution
  pub source_path : Option Text

pub record RemittanceInformation : Type 0 where
  pub unstructured : List Text
  pub reference : Option Text
  pub source_path : Option Text

pub record PaymentTransaction : Type 0 where
  pub instruction_id : Option Text
  pub end_to_end_id : Option Text
  pub transaction_id : Option Text
  pub amount : Option MonetaryAmount
  pub debtor : Option Party
  pub creditor : Option Party
  pub debtor_account : Option Account
  pub creditor_account : Option Account
  pub debtor_agent : Option FinancialInstitution
  pub creditor_agent : Option FinancialInstitution
  pub remittance : Option RemittanceInformation
  pub requested_execution_date : Option ℕ
  pub source_path : Option Text

pub record PaymentMessage : Type 0 where
  pub message_type : Option Text
  pub message_id : Option Text
  pub creation_datetime : Option ℕ
  pub transactions : List PaymentTransaction
  pub source_format : SourceFormat
  pub validation_status : ValidationStatus
