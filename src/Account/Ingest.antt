-- ===== src/Account/Ingest.antt =====
-- apps/api/paymentops_api/services/account_service.py: account reports are stored, and each entry is
-- recognised as new, repeated or confirmed, and reconciled. Identifiers of rows are numbers that the
-- tables hand out; balances, and columns that only copy the message, are left out.
pub mod Entries
pub mod Counted
pub mod Once
mod Tests
use mathlib.Core.Option
use payment_ops.Prelude.{
  ℕ, ◌+◌, Bool, true, false, ◌&&◌, ◌||◌, Option, none, some, List, [], ◌∷◌, ◌++◌, Text, codes,
  text_eq, option_text_eq, truthy, any, ◌==◌, if◌then◌else◌, find,
}
use payment_ops.Prelude.Int.{ℤ}
use payment_ops.Unicode.{Unicode}
use payment_ops.Domain.Payment.{MonetaryAmount}
use payment_ops.Domain.Account.{
  AccountReport, CreditDebitIndicator, crdt, dbit, AccountReportType, statement, notification,
  AccountReconciliationStatus, reconciled, unmatched_account_entry, missing_account_event,
  amount_mismatch, currency_mismatch, account_mismatch, duplicate_account_entry, review_required,
  AccountReference, AccountEntry,
}
use payment_ops.Matching.Evaluate.{take}
use payment_ops.Account.Identity.{LifecycleAccountContext}
use payment_ops.Account.Reconcile.{
  Evidence, Conflict, AccountReconciliationResult, reconcile_account_entry,
}

-- `sha256(s.encode("utf-8")).hexdigest()` and `str` of an integer.
pub record Hashing : Type 0 where
  pub digest : Text → Text
  pub show_int : ℤ → Text

abbrev or_blank : Option Text → Text
or_blank none = []
or_blank (some s) = s

abbrev direction_text : Option CreditDebitIndicator → Text
direction_text none = []
direction_text (some crdt) = codes "CRDT"
direction_text (some dbit) = codes "DBIT"

-- `AccountEntry.identity_hash`
unfoldable pub identity_hash : Hashing → AccountEntry → Text
identity_hash h e = h.digest (
    or_blank e.account_servicer_reference
    ++ b'|' ∷ or_blank e.transaction_id
    ++ b'|' ∷ or_blank e.end_to_end_id
    ++ b'|' ∷ or_blank e.uetr
    ++ b'|' ∷ or_blank e.instruction_id
    ++ b'|' ∷ or_blank e.entry_reference
    ++ b'|' ∷ elim e.amount [ none ↦ [] | some m ↦ h.show_int m.amount_minor ]
    ++ b'|' ∷ or_blank e.currency
    ++ b'|' ∷ direction_text e.credit_debit)

pub record AccountReportRow : Type 0 where
  pub id : ℕ
  pub organization_id : ℕ
  pub report_type : AccountReportType

-- The evidence of a row: of a reconciliation, or that the identity was known.
pub data RowEvidence : Type 0 where
  found : List Evidence → RowEvidence
  account_event_confirmed duplicate_identity : RowEvidence

pub record AccountEntryRow : Type 0 where
  pub id : ℕ
  pub organization_id : ℕ
  pub report_id : ℕ
  pub identity_hash : Text
  pub reconciliation_status : AccountReconciliationStatus
  pub evidence : RowEvidence
  pub conflicts : List Conflict
  pub lifecycle_id : Option ℕ

pub record AccountReconciliationRow : Type 0 where
  pub organization_id : ℕ
  pub account_entry_id : ℕ
  pub lifecycle_id : Option ℕ
  pub classification : AccountReconciliationStatus
  -- In hundredths.
  pub match_score : ℕ
  pub evidence : List Evidence
  pub conflicts : List Conflict

pub record PaymentLifecycleRow : Type 0 where
  pub id : ℕ
  pub organization_id : ℕ
  pub lifecycle_id : Text
  pub current_status : Text
  pub created_at : ℕ
  pub original_message_id : Option Text
  pub transaction_id : Option Text
  pub end_to_end_id : Option Text
  pub instruction_id : Option Text
  pub uetr : Option Text
  pub amount_minor : Option ℤ
  pub currency : Option Text
  pub debtor_account : Option Text
  pub creditor_account : Option Text

pub data EventType : Type 0 where
  debit_recorded credit_recorded event_confirmed : EventType

pub record LifecycleEvent : Type 0 where
  pub organization_id : ℕ
  pub lifecycle_id : ℕ
  pub event_type : EventType

-- `PaymentCase`, whose state is REVIEW_REQUIRED.
pub record ExceptionCase : Type 0 where
  pub case_id : Text
  pub organization_id : ℕ
  pub message_type : AccountReconciliationStatus

-- The audit event of a new case.
pub record ExceptionAudit : Type 0 where
  pub organization_id : ℕ
  pub case_id : Text
  pub classification : AccountReconciliationStatus
  pub entry_id : ℕ

pub record Tables : Type 0 where
  pub next_id : ℕ
  pub reports : List AccountReportRow
  pub entries : List AccountEntryRow
  pub reconciliations : List AccountReconciliationRow
  pub lifecycles : List PaymentLifecycleRow
  pub events : List LifecycleEvent
  pub cases : List ExceptionCase
  pub audit : List ExceptionAudit

-- `_EXCEPTION_STATUSES`
unfoldable pub is_exception : AccountReconciliationStatus → Bool
is_exception missing_account_event = true
is_exception amount_mismatch = true
is_exception currency_mismatch = true
is_exception account_mismatch = true
is_exception duplicate_account_entry = true
is_exception review_required = true
is_exception _ = false

unfoldable pub is_entry : ℕ → Text → AccountEntryRow → Bool
is_entry org h e = (e.organization_id == org) && text_eq e.identity_hash h

-- `_find_entry_by_identity`
unfoldable pub find_entry_by_identity : ℕ → Text → Tables → Option AccountEntryRow
find_entry_by_identity org h t = find (is_entry org h) t.entries

-- `_report_type_of`
unfoldable pub report_type_of : ℕ → Tables → Option AccountReportType
report_type_of id t =
    Option.map (λ (r : AccountReportRow). r.report_type) (find (λ r. r.id == id) t.reports)

abbrev pub same_type : Option AccountReportType → AccountReportType → Bool
same_type none _ = false
same_type (some statement) statement = true
same_type (some notification) notification = true
same_type _ _ = false

abbrev same_id : Option Text → Option Text → Bool
same_id wanted given = truthy wanted && option_text_eq given wanted

unfoldable pub is_lifecycle_of : ℕ → AccountEntry → PaymentLifecycleRow → Bool
is_lifecycle_of org e l =
    (l.organization_id == org)
    && (same_id e.uetr l.uetr
        || same_id e.transaction_id l.transaction_id
        || same_id e.end_to_end_id l.end_to_end_id
        || same_id e.instruction_id l.instruction_id)

-- `_find_lifecycle_for_entry`
unfoldable pub find_lifecycle_for_entry : ℕ → AccountEntry → Tables → Option PaymentLifecycleRow
find_lifecycle_for_entry org e t = find (is_lifecycle_of org e) t.lifecycles

abbrev pub context_of : PaymentLifecycleRow → LifecycleAccountContext
context_of l = record {
  message_id = l.original_message_id;
  original_message_id = l.original_message_id;
  transaction_id = l.transaction_id;
  end_to_end_id = l.end_to_end_id;
  instruction_id = l.instruction_id;
  uetr = l.uetr;
  account_servicer_reference = none;
  reference = none;
  amount_minor = l.amount_minor;
  currency = l.currency;
  debtor_account = l.debtor_account;
  creditor_account = l.creditor_account;
}

unfoldable pub case_id_of : Text → Text
case_id_of h = codes "case-acct-" ++ take 16 h

abbrev pub is_case : ℕ → Text → ExceptionCase → Bool
is_case org id c = text_eq c.case_id id && (c.organization_id == org)

-- `_ensure_case`
unfoldable pub ensure_case : ℕ → AccountEntryRow → AccountReconciliationStatus → Tables → Tables
ensure_case org row classification t =
    let id = case_id_of row.identity_hash in
    elim (find (is_case org id) t.cases) [
      | some c ↦ t
      | none ↦ record t {
        cases =
            t.cases
            ++ record { case_id = id; organization_id = org; message_type = classification } ∷ [];
        audit =
            t.audit
            ++ record {
              organization_id = org;
              case_id = id;
              classification = classification;
              entry_id = row.id;
            }
              ∷ [];
      }
    ]

-- `_add_lifecycle_event`
unfoldable pub add_lifecycle_event : ℕ → ℕ → EventType → Tables → Tables
add_lifecycle_event org id event t = record t {
  events = t.events ++ record { organization_id = org; lifecycle_id = id; event_type = event } ∷ [];
}
