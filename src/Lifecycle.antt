-- ===== src/Lifecycle.antt =====
-- packages/iso_engine/lifecycle/correlation.py: whether two ISO messages belong to one payment
-- lifecycle. The lists that the source appends to are the fields of a `Log`.
mod Codes
pub mod Found
pub mod Symmetry
mod Tests
unfoldable pub use Codes.*
use payment_ops.Prelude.{
  ℕ, Bool, true, false, not, ◌&&◌, ◌||◌, Option, none, some, List, [], ◌∷◌, ◌++◌, map, Text,
  text_eq, option_text_eq, truthy, or_else, nonempty, if◌then◌else◌, is_some,
}
use payment_ops.Prelude.Int.{ℤ, int_eq}
use payment_ops.Unicode.{Unicode, remove_char}
use payment_ops.Domain.Payment.{
  MonetaryAmount, Account, RemittanceInformation, PaymentTransaction, PaymentMessage,
}
use payment_ops.Domain.Lifecycle.{
  CorrelationStatus, correlated, possible_correlation, unresolved, conflict,
  RelatedPaymentReference, TransactionStatus, LifecycleStatusReport,
}
use payment_ops.Matching.Normalize.{normalize_reference}

pub record CorrelationProfile : Type 0 where
  pub message_id : Option Text
  pub original_message_id : Option Text
  pub instruction_id : Option Text
  pub end_to_end_id : Option Text
  pub transaction_id : Option Text
  -- In minor units.
  pub amount : Option ℤ
  pub currency : Option Text
  pub reference : Option Text
  pub account : Option Text
  pub debtor_account : Option Text
  pub creditor_account : Option Text

pub record CorrelationResult : Type 0 where
  pub status : CorrelationStatus
  pub evidence : List Evidence
  pub conflicts : List Conflict

abbrev amount_of : Option MonetaryAmount → Option ℤ
amount_of none = none
amount_of (some m) = some m.amount_minor

abbrev currency_of : Option MonetaryAmount → Option Text
currency_of none = none
currency_of (some m) = some m.currency

abbrev iban_of : Option Account → Option Text
iban_of none = none
iban_of (some a) = a.iban

abbrev other_of : Option Account → Option Text
other_of none = none
other_of (some a) = a.other_identification

abbrev reference_of : Option RemittanceInformation → Option Text
reference_of none = none
reference_of (some r) = r.reference

abbrev head? : List Text → Option Text
head? [] = none
head? (s ∷ _) = some s

abbrev first_line : Option RemittanceInformation → Option Text
first_line none = none
first_line (some r) = head? r.unstructured

unfoldable pub profile_from_transaction : PaymentTransaction → Option Text → CorrelationProfile
profile_from_transaction tx message_id = record {
  message_id = message_id;
  original_message_id = none;
  instruction_id = tx.instruction_id;
  end_to_end_id = tx.end_to_end_id;
  transaction_id = tx.transaction_id;
  amount = amount_of tx.amount;
  currency = currency_of tx.amount;
  reference = or_else (reference_of tx.remittance) (first_line tx.remittance);
  account = or_else (iban_of tx.creditor_account) (iban_of tx.debtor_account);
  debtor_account = or_else (iban_of tx.debtor_account) (other_of tx.debtor_account);
  creditor_account = or_else (iban_of tx.creditor_account) (other_of tx.creditor_account);
}

abbrev referred_end_to_end : Option RelatedPaymentReference → Option Text
referred_end_to_end none = none
referred_end_to_end (some r) = r.end_to_end_id

abbrev referred_transaction : Option RelatedPaymentReference → Option Text
referred_transaction none = none
referred_transaction (some r) = r.transaction_id

unfoldable pub profile_from_status : LifecycleStatusReport → TransactionStatus → CorrelationProfile
profile_from_status report tx = record {
  message_id = report.message_id;
  original_message_id = report.original_message_id;
  instruction_id = tx.original_instruction_id;
  end_to_end_id = tx.original_end_to_end_id;
  transaction_id = tx.original_transaction_id;
  amount = amount_of tx.amount;
  currency = currency_of tx.amount;
  reference = referred_end_to_end tx.reference;
  account = referred_transaction tx.reference;
  debtor_account = none;
  creditor_account = none;
}

unfoldable pub profile_from_status_report : LifecycleStatusReport → List CorrelationProfile
profile_from_status_report report = map (profile_from_status report) report.transaction_statuses

unfoldable pub profile_from_message : PaymentMessage → List CorrelationProfile
profile_from_message message =
    map (λ tx. profile_from_transaction tx message.message_id) message.transactions

-- `a and b and a == b` on optional texts, through a comparison of what is there.
unfoldable pub both_equal : Option Text → Option Text → Bool
both_equal a b = truthy a && truthy b && option_text_eq a b

unfoldable pub same_amount : Option ℤ → Option ℤ → Bool
same_amount (some a) (some b) = int_eq a b
same_amount _ _ = false

unfoldable pub link_messages : CorrelationProfile → CorrelationProfile → Log → Log
link_messages a b log =
    if both_equal a.message_id b.original_message_id
    then note original_message_id_exact log
    else if both_equal a.original_message_id b.message_id
    then note original_message_id_exact log
    else if both_equal a.message_id b.message_id
    then note message_id_exact log
    else log

-- `_compare_identifier`
unfoldable pub compare_identifier : Option Text → Option Text → Evidence → Conflict → Log → Log
compare_identifier a b code c log =
    if truthy a && truthy b then if option_text_eq a b then note code log else object c log else log

unfoldable pub compare_amounts : CorrelationProfile → CorrelationProfile → Log → Log
compare_amounts a b log =
    if same_amount a.amount b.amount && both_equal a.currency b.currency
    then note currency_exact (note amount_exact log)
    else log

module _ (u : Unicode) where
  unfoldable pub same_reference : Option Text → Option Text → Bool
  same_reference a b =
      truthy a && truthy b && both_equal (normalize_reference u a) (normalize_reference u b)

  unfoldable pub compare_references : CorrelationProfile → CorrelationProfile → Log → Log
  compare_references a b log =
      if same_reference a.reference b.reference then note reference_exact log else log

abbrev without_blanks : Option Text → Option Text
without_blanks none = none
without_blanks (some s) = some (remove_char b' ' s)

-- `a.replace(" ", "") == b.replace(" ", "")` where both are there.
unfoldable pub same_account : Option Text → Option Text → Bool
same_account a b = truthy a && truthy b && option_text_eq (without_blanks a) (without_blanks b)

unfoldable pub compare_accounts : CorrelationProfile → CorrelationProfile → Log → Log
compare_accounts a b log = if same_account a.account b.account then note account_exact log else log

unfoldable pub collect : Unicode → CorrelationProfile → CorrelationProfile → Log
collect u a b =
    let log0 = link_messages a b (record { evidence = []; conflicts = [] }) in
    let log1 =
      compare_identifier a.transaction_id b.transaction_id transaction_id_exact
        transaction_id_conflict log0 in
    let log2 =
      compare_identifier a.end_to_end_id b.end_to_end_id end_to_end_id_exact end_to_end_id_conflict
        log1 in
    let log3 =
      compare_identifier a.instruction_id b.instruction_id instruction_id_exact
        instruction_id_conflict log2 in
    compare_accounts a b (compare_references u a b (compare_amounts a b log3))

unfoldable pub status_of : List Evidence → List Conflict → CorrelationStatus
status_of evidence conflicts =
    if nonempty conflicts
    then conflict
    else if has original_message_id_exact evidence
        || has message_id_exact evidence
        || has transaction_id_exact evidence
    then correlated
    else if has end_to_end_id_exact evidence || has instruction_id_exact evidence
    then possible_correlation
    else if has amount_exact evidence && has currency_exact evidence
    then possible_correlation
    else unresolved

unfoldable pub correlate_profiles :
    Unicode → CorrelationProfile → CorrelationProfile → CorrelationResult
correlate_profiles u a b =
    let log = collect u a b in
    record {
      status = status_of log.evidence log.conflicts;
      evidence = log.evidence;
      conflicts = log.conflicts;
    }
