-- ===== src/Domain/Lifecycle.antt =====
-- The lifecycle side of packages/payment_domain/models.py (pacs.002 status reports).
use payment_ops.Prelude.{ℕ, List, Option, Text}
use payment_ops.Domain.Payment.{MonetaryAmount}

pub data PaymentStatus : Type 0 where
  accepted rejected pending processing partially_accepted unknown : PaymentStatus

pub data CorrelationStatus : Type 0 where
  correlated possible_correlation unresolved conflict ambiguous : CorrelationStatus

pub record RelatedPaymentReference : Type 0 where
  pub message_id : Option Text
  pub message_definition : Option Text
  pub message_version : Option Text
  pub instruction_id : Option Text
  pub end_to_end_id : Option Text
  pub transaction_id : Option Text
  pub amount : Option MonetaryAmount
  pub uetr : Option Text

pub record StatusReason : Type 0 where
  pub code : Option Text
  pub proprietary_code : Option Text
  pub additional_information : Option Text
  pub originator : Option Text
  pub normalized_category : Option Text

pub record TransactionStatus : Type 0 where
  pub original_instruction_id : Option Text
  pub original_end_to_end_id : Option Text
  pub original_transaction_id : Option Text
  pub raw_iso_status : Option Text
  pub normalized_status : PaymentStatus
  pub reasons : List StatusReason
  pub amount : Option MonetaryAmount
  pub reference : Option RelatedPaymentReference

pub record LifecycleStatusReport : Type 0 where
  pub message_family : Option Text
  pub message_definition : Option Text
  pub message_version : Option Text
  pub namespace : Option Text
  pub message_id : Option Text
  pub creation_datetime : Option ℕ
  pub original_message_id : Option Text
  pub original_message_definition : Option Text
  pub group_status_raw : Option Text
  pub group_status : PaymentStatus
  pub transaction_statuses : List TransactionStatus
