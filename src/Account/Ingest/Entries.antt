-- ===== src/Account/Ingest/Entries.antt =====
-- apps/api/paymentops_api/services/account_service.py: the ingestion of a report with its entries,
-- and the search for lifecycles without an account event.
use payment_ops.Prelude.{
  ℕ, ◌+◌, Bool, true, false, not, ◌&&◌, ◌||◌, Option, none, some, List, [], ◌∷◌, ◌++◌, Text, codes,
  text_eq, any, ltb, ◌==◌, if◌then◌else◌, find,
}
use payment_ops.Unicode.{Unicode}
use payment_ops.Domain.Account.{
  AccountReport, CreditDebitIndicator, dbit, AccountReportType, reconciled, unmatched_account_entry,
  missing_account_event, duplicate_account_entry, AccountEntry,
}
use payment_ops.Account.Reconcile.{AccountReconciliationResult, reconcile_account_entry}
use payment_ops.Account.Ingest.{
  Hashing, identity_hash, found, account_event_confirmed, duplicate_identity, AccountEntryRow,
  PaymentLifecycleRow, EventType, debit_recorded, credit_recorded, event_confirmed, Tables,
  is_exception, find_entry_by_identity, report_type_of, same_type, find_lifecycle_for_entry,
  context_of, is_case, ensure_case, add_lifecycle_event,
}

-- `session.add(entry_row)`, the row as it is once its status is set.
unfoldable pub add_entry : AccountEntryRow → Tables → Tables
add_entry row t = record t { next_id = t.next_id + 1; entries = t.entries ++ row ∷ [] }

-- `_persist_reconciliation`
unfoldable pub persist_reconciliation :
    AccountEntryRow → Option ℕ → AccountReconciliationResult → Tables → Tables
persist_reconciliation row lifecycle_id result t = record t {
  reconciliations =
      t.reconciliations
      ++ record {
        organization_id = row.organization_id;
        account_entry_id = row.id;
        lifecycle_id = lifecycle_id;
        classification = result.classification;
        match_score = result.match_score;
        evidence = result.evidence;
        conflicts = result.conflicts;
      }
        ∷ [];
}

abbrev pub event_of : Option CreditDebitIndicator → EventType
event_of (some dbit) = debit_recorded
event_of _ = credit_recorded

abbrev unmatched : AccountReconciliationResult
unmatched = record {
  classification = unmatched_account_entry;
  evidence = [];
  conflicts = [];
  match_score = 0;
}

abbrev pub raise_case : ℕ → AccountEntryRow → Tables → Tables
raise_case org row t =
    if is_exception row.reconciliation_status
    then ensure_case org row row.reconciliation_status t
    else t

-- The row of an entry that was reconciled.
abbrev pub reconciled_row :
    ℕ → ℕ → ℕ → Text → Option ℕ → AccountReconciliationResult → AccountEntryRow
reconciled_row id org report_id h lifecycle_id result = record {
  id = id;
  organization_id = org;
  report_id = report_id;
  identity_hash = h;
  reconciliation_status = result.classification;
  evidence = found result.evidence;
  conflicts = result.conflicts;
  lifecycle_id = lifecycle_id;
}

-- `_reconcile_and_persist`
unfoldable pub reconcile_and_persist :
    Unicode
    → ℕ
    → Text
    → AccountEntry
    → AccountReport
    → ℕ
    → Option PaymentLifecycleRow
    → Tables
    → Tables
reconcile_and_persist u org h e report report_id none t =
    let row = reconciled_row t.next_id org report_id h none unmatched in
    persist_reconciliation row none unmatched (add_entry row t)
reconcile_and_persist u org h e report report_id (some l) t =
    let result = reconcile_account_entry u e report.account (context_of l) in
    let row = reconciled_row t.next_id org report_id h (some l.id) result in
    raise_case org row (
      add_lifecycle_event org l.id (event_of e.credit_debit)
        (persist_reconciliation row (some l.id) result (add_entry row t)))

-- An entry whose identity is known: repeated in the same report or kind of report, or confirmed by
-- the other kind.
unfoldable pub is_repeated : AccountReportType → ℕ → AccountEntryRow → Tables → Bool
is_repeated report_type report_id existing t =
    (existing.report_id == report_id) || same_type (report_type_of existing.report_id t) report_type

abbrev pub duplicate_row : ℕ → ℕ → ℕ → Text → AccountEntryRow → AccountEntryRow
duplicate_row id org report_id h existing = record {
  id = id;
  organization_id = org;
  report_id = report_id;
  identity_hash = h;
  reconciliation_status = duplicate_account_entry;
  evidence = duplicate_identity;
  conflicts = [];
  lifecycle_id = existing.lifecycle_id;
}

unfoldable pub repeat_entry : ℕ → Text → ℕ → AccountEntryRow → Tables → Tables
repeat_entry org h report_id existing t =
    let row = duplicate_row t.next_id org report_id h existing in
    ensure_case org row duplicate_account_entry (add_entry row t)

unfoldable pub confirm_entry : ℕ → Text → ℕ → AccountEntryRow → Tables → Tables
confirm_entry org h report_id existing t =
    let row : AccountEntryRow = record {
      id = t.next_id;
      organization_id = org;
      report_id = report_id;
      identity_hash = h;
      reconciliation_status = reconciled;
      evidence = account_event_confirmed;
      conflicts = [];
      lifecycle_id = existing.lifecycle_id;
    } in
    elim existing.lifecycle_id [
      | none ↦ add_entry row t
      | some l ↦ add_lifecycle_event org l event_confirmed (add_entry row t)
    ]

-- `_ingest_entry`
unfoldable pub ingest_entry :
    Unicode → Hashing → ℕ → AccountReport → ℕ → AccountEntry → Tables → Tables
ingest_entry u k org report report_id e t =
    let h = identity_hash k e in
    elim (find_entry_by_identity org h t) [
      | none ↦ reconcile_and_persist u org h e report report_id (find_lifecycle_for_entry org e t) t
      | some existing ↦
          if is_repeated report.report_type report_id existing t
          then repeat_entry org h report_id existing t
          else confirm_entry org h report_id existing t
    ]

unfoldable pub ingest_entries :
    Unicode → Hashing → ℕ → AccountReport → ℕ → List AccountEntry → Tables → Tables
ingest_entries u k org report report_id [] t = t
ingest_entries u k org report report_id (e ∷ es) t =
    ingest_entries u k org report report_id es (ingest_entry u k org report report_id e t)

-- `_persist_report`
unfoldable pub persist_report : ℕ → AccountReport → Tables → Tables
persist_report org report t = record t {
  next_id = t.next_id + 1;
  reports =
      t.reports
      ++ record { id = t.next_id; organization_id = org; report_type = report.report_type } ∷ [];
}

-- `ingest_account_report`
unfoldable pub ingest_account_report : Unicode → Hashing → ℕ → List AccountReport → Tables → Tables
ingest_account_report u k org [] t = t
ingest_account_report u k org (report ∷ reports) t =
    ingest_account_report u k org reports
      (ingest_entries u k org report t.next_id report.entries (persist_report org report t))

abbrev same_lifecycle : Option ℕ → ℕ → Bool
same_lifecycle none id = false
same_lifecycle (some l) id = l == id

-- An accepted lifecycle that is older than the window and has no entry.
unfoldable pub lacks_event : ℕ → ℕ → ℕ → Tables → PaymentLifecycleRow → Bool
lacks_event now window org t l =
    (l.organization_id == org)
    && text_eq l.current_status (codes "ACCEPTED")
    && ltb (l.created_at + window) now
    && not (
        any
          (λ (e : AccountEntryRow).
            (e.organization_id == org) && same_lifecycle e.lifecycle_id l.id)
          t.entries)

abbrev pub missing_case_id : PaymentLifecycleRow → Text
missing_case_id l = codes "case-missing-" ++ l.lifecycle_id

unfoldable pub ensure_missing_case : ℕ → PaymentLifecycleRow → Tables → Tables
ensure_missing_case org l t = elim (find (is_case org (missing_case_id l)) t.cases) [
  | some c ↦ t
  | none ↦ record t {
    cases =
        t.cases
        ++ record {
          case_id = missing_case_id l;
          organization_id = org;
          message_type = missing_account_event;
        }
          ∷ [];
  }
]

-- The loop of `detect_missing_account_events`, with what is flagged.
unfoldable pub detect : ℕ → ℕ → ℕ → List PaymentLifecycleRow → Tables → Tables × List Text
detect now window org [] t = (t, [])
detect now window org (l ∷ ls) t = elim (lacks_event now window org t l) [
  | true ↦
      let rest = detect now window org ls (ensure_missing_case org l t) in
      (rest.0, l.lifecycle_id ∷ rest.1)
  | false ↦ detect now window org ls t
]

unfoldable pub detect_missing_account_events : ℕ → ℕ → ℕ → Tables → Tables × List Text
detect_missing_account_events now window org t = detect now window org t.lifecycles t
