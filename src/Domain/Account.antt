-- ===== src/Domain/Account.antt =====
-- The account-reporting side of packages/payment_domain/models.py (camt.053 and camt.054).
use payment_ops.Prelude.{ℕ, List, Option, Text}
use payment_ops.Domain.Payment.{MonetaryAmount, Party}

pub data CreditDebitIndicator : Type 0 where
  crdt dbit : CreditDebitIndicator

pub data AccountReportType : Type 0 where
  statement notification : AccountReportType

pub data BalanceType : Type 0 where
  opening closing interim available forward_available : BalanceType

pub data AccountReconciliationStatus : Type 0 where
  reconciled possible_reconciliation unmatched_account_entry : AccountReconciliationStatus
  missing_account_event amount_mismatch currency_mismatch : AccountReconciliationStatus
  account_mismatch reference_mismatch duplicate_account_entry : AccountReconciliationStatus
  review_required : AccountReconciliationStatus

pub record AccountReference : Type 0 where
  pub iban : Option Text
  pub other_identification : Option Text
  pub currency : Option Text
  pub name : Option Text
  pub servicer_bic : Option Text

pub record AccountBalance : Type 0 where
  pub type : BalanceType
  pub amount : MonetaryAmount
  pub credit_debit : CreditDebitIndicator

pub record BankTransactionCode : Type 0 where
  pub code : Option Text
  pub proprietary : Option Text
  pub family : Option Text
  pub sub_family : Option Text

pub record AccountEntry : Type 0 where
  pub entry_reference : Option Text
  pub account_servicer_reference : Option Text
  pub transaction_id : Option Text
  pub instruction_id : Option Text
  pub end_to_end_id : Option Text
  pub uetr : Option Text
  pub amount : Option MonetaryAmount
  pub currency : Option Text
  pub credit_debit : Option CreditDebitIndicator
  pub booking_date : Option ℕ
  pub value_date : Option ℕ
  pub status : Option Text
  pub bank_transaction_code : Option BankTransactionCode
  pub remittance_reference : Option Text
  pub debtor : Option Party
  pub creditor : Option Party
  pub related_agents : List Text
  pub original_message_reference : Option Text

pub record AccountReport : Type 0 where
  pub message_family : Option Text
  pub message_definition : Option Text
  pub message_version : Option Text
  pub namespace : Option Text
  pub message_id : Option Text
  pub creation_datetime : Option ℕ
  pub report_type : AccountReportType
  pub account : Option AccountReference
  pub statement_id : Option Text
  pub notification_id : Option Text
  pub period_start : Option ℕ
  pub period_end : Option ℕ
  pub balances : List AccountBalance
  pub entries : List AccountEntry

-- A message may hold several statements or notifications.
pub record AccountReportBundle : Type 0 where
  pub message_family : Option Text
  pub message_definition : Option Text
  pub message_version : Option Text
  pub namespace : Option Text
  pub message_id : Option Text
  pub creation_datetime : Option ℕ
  pub report_type : AccountReportType
  pub reports : List AccountReport
