-- ===== src/Account/Ingest/Once.antt =====
-- Each account event is handed to reconciliation once.
use payment_ops.Prelude.{
  ℕ, ◌≡◌, refl, Option, none, some, List, [], ◌∷◌, Text, find, Bool-cases, Option-cases, inl, inr,
  arith,
}
use payment_ops.Unicode.{Unicode}
use payment_ops.Domain.Account.{AccountReport, AccountEntry, duplicate_account_entry}
use payment_ops.Account.Reconcile.{reconcile_account_entry}
use payment_ops.Account.Ingest.{
  Hashing, identity_hash, AccountEntryRow, PaymentLifecycleRow, Tables, is_entry,
  find_entry_by_identity, find_lifecycle_for_entry, context_of, is_case, ensure_case,
  add_lifecycle_event,
}
use payment_ops.Account.Ingest.Entries.{
  add_entry, persist_reconciliation, reconcile_and_persist, is_repeated, repeat_entry,
  confirm_entry, ingest_entry, ingest_entries, raise_case, event_of, reconciled_row, duplicate_row,
  persist_report, ingest_account_report, missing_case_id, ensure_missing_case, lacks_event, detect,
  detect_missing_account_events,
}
use payment_ops.Account.Ingest.Counted.{
  count, IsOnce, Keeps, ensure_case-Keeps, IsOnce-Keeps, raise_case-Keeps, new_row-IsOnce,
  known_row-IsOnce,
}

module _ (u : Unicode) (k : Hashing) (org : ℕ) where
  reconcile_and_persist-IsOnce :
      (h : Text) (e : AccountEntry) (report : AccountReport) (report_id : ℕ)
      (lifecycle : Option PaymentLifecycleRow) (t : Tables)
      → find (is_entry org h) t.entries ≡ none
      → IsOnce t
      → IsOnce (reconcile_and_persist u org h e report report_id lifecycle t)
  unfolding reconcile_and_persist persist_reconciliation add_entry add_lifecycle_event
  reconcile_and_persist-IsOnce h e report report_id none t absent once =
      new_row-IsOnce t _ _ refl absent once
  reconcile_and_persist-IsOnce h e report report_id (some l) t absent once =
      let result = reconcile_account_entry u e report.account (context_of l) in
      let row = reconciled_row t.next_id org report_id h (some l.id) result in
      let stored =
        add_lifecycle_event org l.id (event_of e.credit_debit)
          (persist_reconciliation row (some l.id) result (add_entry row t)) in
      IsOnce-Keeps stored (raise_case org row stored) (raise_case-Keeps org row stored)
        (new_row-IsOnce t row _ refl absent once)

  repeat_entry-IsOnce :
      (h : Text) (report_id : ℕ) (existing : AccountEntryRow) (t : Tables)
      → IsOnce t
      → IsOnce (repeat_entry org h report_id existing t)
  unfolding repeat_entry add_entry
  repeat_entry-IsOnce h report_id existing t once =
      let row = duplicate_row t.next_id org report_id h existing in
      let stored = add_entry row t in
      IsOnce-Keeps stored (ensure_case org row duplicate_account_entry stored)
        (ensure_case-Keeps org row duplicate_account_entry stored)
        (known_row-IsOnce t row refl once)

  confirm_entry-IsOnce :
      (h : Text) (report_id : ℕ) (existing : AccountEntryRow) (t : Tables)
      → IsOnce t
      → IsOnce (confirm_entry org h report_id existing t)
  unfolding confirm_entry add_entry add_lifecycle_event
  confirm_entry-IsOnce h report_id existing t once = elim (Option-cases existing.lifecycle_id) [
    | inl e ↦ rw e (known_row-IsOnce t _ refl once)
    | inr (l, e) ↦ rw e (known_row-IsOnce t _ refl once)
  ]

  ingest_entry-IsOnce :
      (report : AccountReport) (report_id : ℕ) (e : AccountEntry) (t : Tables)
      → IsOnce t
      → IsOnce (ingest_entry u k org report report_id e t)
  unfolding ingest_entry find_entry_by_identity
  ingest_entry-IsOnce report report_id e t once =
      let h = identity_hash k e in
      elim (Option-cases (find (is_entry org h) t.entries)) [
        | inl absent ↦
            rw (absent, ingest_entry)
              (reconcile_and_persist-IsOnce h e report report_id (find_lifecycle_for_entry org e t)
                t absent once)
        | inr (existing, there) ↦
            rw (there, ingest_entry)
              (elim (Bool-cases (is_repeated report.report_type report_id existing t)) [
                | inl again ↦ rw again (repeat_entry-IsOnce h report_id existing t once)
                | inr other ↦ rw other (confirm_entry-IsOnce h report_id existing t once)
              ])
      ]

  ingest_entries-IsOnce :
      (report : AccountReport) (report_id : ℕ) (es : List AccountEntry) (t : Tables)
      → IsOnce t
      → IsOnce (ingest_entries u k org report report_id es t)
  unfolding ingest_entries
  ingest_entries-IsOnce report report_id [] t once = once
  ingest_entries-IsOnce report report_id (e ∷ es) t once =
      ingest_entries-IsOnce report report_id es (ingest_entry u k org report report_id e t)
        (ingest_entry-IsOnce report report_id e t once)

  ingest_account_report-IsOnce :
      (reports : List AccountReport) (t : Tables)
      → IsOnce t
      → IsOnce (ingest_account_report u k org reports t)
  unfolding ingest_account_report persist_report
  ingest_account_report-IsOnce [] t once = once
  ingest_account_report-IsOnce (report ∷ reports) t once =
      ingest_account_report-IsOnce reports _
        (ingest_entries-IsOnce report t.next_id report.entries (persist_report org report t) once)

ensure_missing_case-Keeps :
    (org : ℕ) (l : PaymentLifecycleRow) (t : Tables) → Keeps t (ensure_missing_case org l t)
unfolding ensure_missing_case
ensure_missing_case-Keeps org l t =
    elim (Option-cases (find (is_case org (missing_case_id l)) t.cases)) [
      | inl e ↦ rw (e, ensure_missing_case) (refl, refl)
      | inr (x, e) ↦ rw (e, ensure_missing_case) (refl, refl)
    ]

-- What the service does to the tables of all organisations, from tables without entries.
pub data Reach (u : Unicode) (k : Hashing) (lifecycles : List PaymentLifecycleRow)
    : Tables → Type 0 where
  start : Reach u k lifecycles (record {
    next_id = 0;
    reports = [];
    entries = [];
    reconciliations = [];
    lifecycles = lifecycles;
    events = [];
    cases = [];
    audit = [];
  })
  ingested :
      (org : ℕ) (reports : List AccountReport) {t : Tables}
      → Reach u k lifecycles t
      → Reach u k lifecycles (ingest_account_report u k org reports t)
  searched :
      (now window org : ℕ) {t : Tables}
      → Reach u k lifecycles t
      → Reach u k lifecycles (detect_missing_account_events now window org t).0

detect-IsOnce :
    (now window org : ℕ) (ls : List PaymentLifecycleRow) (t : Tables)
    → IsOnce t
    → IsOnce (detect now window org ls t).0
unfolding detect
detect-IsOnce now window org [] t once = once
detect-IsOnce now window org (l ∷ ls) t once = elim (Bool-cases (lacks_event now window org t l)) [
  | inl e ↦
      rw (e, detect)
        (detect-IsOnce now window org ls (ensure_missing_case org l t)
          (IsOnce-Keeps t (ensure_missing_case org l t) (ensure_missing_case-Keeps org l t) once))
  | inr e ↦ rw (e, detect) (detect-IsOnce now window org ls t once)
]

-- Whatever reports are ingested and however often, in an organisation at most one entry of an
-- identity is handed to reconciliation, whatever comes out of it; every other one has the evidence
-- of a duplicate or of a confirmation. There are as many rows of reconciliations as entries handed
-- over.
pub Reach-IsOnce :
    (u : Unicode) (k : Hashing) (lifecycles : List PaymentLifecycleRow) (t : Tables)
    → Reach u k lifecycles t
    → IsOnce t
unfolding detect_missing_account_events count
Reach-IsOnce u k lifecycles _ start = (λ org h. omega arith, refl)
Reach-IsOnce u k lifecycles _ (ingested org reports {t} r) =
    ingest_account_report-IsOnce u k org reports t (Reach-IsOnce u k lifecycles t r)
Reach-IsOnce u k lifecycles _ (searched now window org {t} r) =
    detect-IsOnce now window org t.lifecycles t (Reach-IsOnce u k lifecycles t r)
