-- ===== src/Lifecycle/Tests.antt =====
-- Runs of `correlate_profiles` on a payment and a report on it, and the theorems on them.
use payment_ops.Prelude.{◌≡◌, none, some, [], ◌∷◌, codes, text_eq}
use payment_ops.Prelude.Int.{pos}
use payment_ops.Unicode.Ascii.{ascii}
use payment_ops.Domain.Payment.{MonetaryAmount, PaymentTransaction}
use payment_ops.Domain.Lifecycle.{accepted, conflict, TransactionStatus, LifecycleStatusReport}
use payment_ops.Lifecycle.{
  CorrelationProfile, correlate_profiles, profile_from_transaction, profile_from_status, both_equal,
}
use payment_ops.Lifecycle.Found.{clash, clashes, linked, same_money, correlate_profiles-status}
use payment_ops.Lifecycle.Symmetry.{correlate_profiles_comm}

abbrev eur : MonetaryAmount
eur = record { amount_minor = pos 12500; currency = codes "EUR" }

abbrev transaction : PaymentTransaction
transaction = record {
  instruction_id = some (codes "I-1");
  end_to_end_id = some (codes "E-1");
  transaction_id = some (codes "T-1");
  amount = some eur;
  debtor = none;
  creditor = none;
  debtor_account = none;
  creditor_account = none;
  debtor_agent = none;
  creditor_agent = none;
  remittance = none;
  requested_execution_date = none;
  source_path = none;
}

abbrev status : TransactionStatus
status = record {
  original_instruction_id = none;
  original_end_to_end_id = some (codes "E-1");
  original_transaction_id = some (codes "T-1");
  raw_iso_status = some (codes "ACSC");
  normalized_status = accepted;
  reasons = [];
  amount = none;
  reference = none;
}

abbrev report : LifecycleStatusReport
report = record {
  message_family = none;
  message_definition = none;
  message_version = none;
  namespace = none;
  message_id = some (codes "R-1");
  creation_datetime = none;
  original_message_id = some (codes "M-1");
  original_message_definition = none;
  group_status_raw = none;
  group_status = accepted;
  transaction_statuses = status ∷ [];
}

abbrev sent : CorrelationProfile
sent = profile_from_transaction transaction (some (codes "M-1"))

abbrev reported : CorrelationProfile
reported = profile_from_status report status

abbrev other_transaction : CorrelationProfile
other_transaction =
    profile_from_status report (record status { original_transaction_id = some (codes "T-2") })

correlate_profiles_comm_example :
    correlate_profiles ascii sent reported ≡ correlate_profiles ascii reported sent
correlate_profiles_comm_example = correlate_profiles_comm ascii sent reported

correlate_profiles-status_example :
    (correlate_profiles ascii sent other_transaction).status ≡ conflict
unfolding clashes clash linked both_equal same_money profile_from_transaction profile_from_status
    text_eq
correlate_profiles-status_example = correlate_profiles-status ascii sent other_transaction
