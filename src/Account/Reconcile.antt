-- ===== src/Account/Reconcile.antt =====
-- packages/iso_engine/account/reconciliation.py: evidence for and against one account entry
-- belonging to one payment lifecycle, its score and its classification. The two lists that the
-- source appends to are the two fields of a `Log` that each comparison takes and returns.
mod Codes
pub mod Collected
pub mod Verdict
pub mod Score
pub mod Reference
mod Tests
unfoldable pub use Codes.*
use payment_ops.Prelude.{
  ℕ, ◌+◌, ◌*◌, ◌/◌, Bool, true, false, not, ◌&&◌, ◌||◌, Option, none, some, List, [], ◌∷◌, ◌++◌,
  Text, text_eq, option_text_eq, truthy, or_else, nonempty, any, if◌then◌else◌,
}
use payment_ops.Prelude.Int.{ℤ, int_eq}
use payment_ops.Unicode.{Unicode, strip, remove_char, upper}
use payment_ops.Domain.Account.{
  CreditDebitIndicator, crdt, dbit, AccountReconciliationStatus, reconciled,
  possible_reconciliation, unmatched_account_entry, amount_mismatch, currency_mismatch,
  account_mismatch, review_required, AccountReference, AccountEntry,
}
use payment_ops.Account.Identity.{
  LifecycleAccountContext, EntryIdentity, iban_of, other_of, entry_identity,
}
use payment_ops.Matching.Normalize.{normalize_reference}

pub record AccountReconciliationResult : Type 0 where
  pub classification : AccountReconciliationStatus
  pub evidence : List Evidence
  pub conflicts : List Conflict
  -- In hundredths.
  pub match_score : ℕ

-- `_compare`, on the outcome of the comparison.
unfoldable pub compare_id : Option Bool → Evidence → Log → Log
compare_id none code log = log
compare_id (some true) code log = note code log
compare_id (some false) code log = object id_conflict log

-- A comparison of two values with a conflict of its own.
unfoldable pub compare_value : Option Bool → Evidence → Conflict → Log → Log
compare_value none code c log = log
compare_value (some true) code c log = note code log
compare_value (some false) code c log = object c log

unfoldable pub note_if : Bool → Evidence → Log → Log
note_if true code log = note code log
note_if false code log = log

unfoldable pub object_if : Bool → Conflict → Log → Log
object_if true c log = object c log
object_if false c log = log

-- The direction of the entry is compared with the expected one; where one of them is absent, a
-- foreign account is a conflict.
unfoldable pub judge_direction : Option Bool → Bool → Log → Log
judge_direction none foreign log = object_if foreign account_conflict log
judge_direction (some true) foreign log = note credit_debit_expected log
judge_direction (some false) foreign log = object credit_debit_conflict log

-- `entry.credit_debit == expected_direction`
abbrev pub same_direction : CreditDebitIndicator → CreditDebitIndicator → Bool
same_direction crdt crdt = true
same_direction crdt dbit = false
same_direction dbit crdt = false
same_direction dbit dbit = true

-- `None` where a side is absent: nothing is compared.
abbrev pub amount_agreement : Option ℤ → Option ℤ → Option Bool
amount_agreement none b = none
amount_agreement (some a) none = none
amount_agreement (some a) (some b) = some (int_eq a b)

abbrev pub direction_agreement :
    Option CreditDebitIndicator → Option CreditDebitIndicator → Option Bool
direction_agreement none b = none
direction_agreement (some a) none = none
direction_agreement (some a) (some b) = some (same_direction a b)

-- `entry_account` of `reconcile_account_entry`
abbrev pub entry_account : Option AccountReference → Option Text
entry_account account = or_else (iban_of account) (other_of account)

module _ (u : Unicode) where
  unfoldable pub same_id : Text → Text → Bool
  same_id a b = text_eq (upper u (strip a)) (upper u (strip b))

  unfoldable pub same_currency : Text → Text → Bool
  same_currency a b = text_eq (upper u a) (upper u b)

  -- `_same_account`
  unfoldable pub same_account : Text → Text → Bool
  same_account a b =
      text_eq (upper u (remove_char b'-' (remove_char b' ' a)))
        (upper u (remove_char b'-' (remove_char b' ' b)))

  unfoldable pub same_reference : Text → Text → Bool
  same_reference a b =
      option_text_eq (normalize_reference u (some a)) (normalize_reference u (some b))

  -- `_expected_direction`
  unfoldable pub expected_direction :
      Option Text → LifecycleAccountContext → Option CreditDebitIndicator
  expected_direction account l =
      if agrees (agreement same_account account l.creditor_account)
      then some crdt
      else if agrees (agreement same_account account l.debtor_account)
      then some dbit
      else none

  unfoldable pub compare_ids : EntryIdentity → LifecycleAccountContext → Log → Log
  compare_ids i l log =
      compare_id (agreement same_id i.account_servicer_reference l.account_servicer_reference)
        account_servicer_exact
        (compare_id (agreement same_id i.instruction_id l.instruction_id) instr_exact (
          compare_id (agreement same_id i.end_to_end_id l.end_to_end_id) e2e_exact (
            compare_id (agreement same_id i.transaction_id l.transaction_id) txid_exact
              (compare_id (agreement same_id i.uetr l.uetr) uetr_exact log))))

  unfoldable pub compare_money : EntryIdentity → LifecycleAccountContext → Log → Log
  compare_money i l log =
      compare_value (agreement same_currency i.currency l.currency) currency_exact currency_conflict
        (compare_value (amount_agreement i.amount_minor l.amount_minor) amount_exact amount_conflict
          log)

  -- The account is known and is neither of the lifecycle's: the `elif` of the source.
  unfoldable pub is_foreign_account : Option Text → LifecycleAccountContext → Bool
  is_foreign_account account l =
      truthy account
      && truthy l.creditor_account
      && truthy l.debtor_account
      && not (agrees (agreement same_account account l.creditor_account))
      && not (agrees (agreement same_account account l.debtor_account))

  unfoldable pub compare_direction :
      Option CreditDebitIndicator → Option Text → LifecycleAccountContext → Log → Log
  compare_direction direction account l log =
      judge_direction (direction_agreement direction (expected_direction account l))
        (is_foreign_account account l) log

  unfoldable pub compare_account :
      Option CreditDebitIndicator → Option Text → LifecycleAccountContext → Log → Log
  compare_account direction account l log = compare_direction direction account l (
      note_if (agrees (agreement same_account account l.debtor_account)) account_exact
        (note_if (agrees (agreement same_account account l.creditor_account)) account_exact log))

  unfoldable pub compare_reference : EntryIdentity → LifecycleAccountContext → Log → Log
  compare_reference i l log =
      note_if (agrees (agreement same_reference i.reference l.reference)) reference_normalized_exact
        log

  unfoldable pub collect : AccountEntry → Option AccountReference → LifecycleAccountContext → Log
  collect entry account l =
      let i = entry_identity entry account in
      compare_reference i l (
        compare_account entry.credit_debit (entry_account account) l
          (compare_money i l (compare_ids i l (record { evidence = []; conflicts = [] }))))

-- The weights of `_score`; the code that is never weighed has weight 0.
abbrev pub weight : Evidence → ℕ
weight uetr_exact = 40
weight txid_exact = 40
weight e2e_exact = 30
weight instr_exact = 20
weight account_servicer_exact = 20
weight account_exact = 15
weight amount_exact = 20
weight currency_exact = 10
weight reference_normalized_exact = 15
weight credit_debit_expected = 5
weight date_within_tolerance = 0

abbrev pub total_weight : ℕ
total_weight = 215

unfoldable pub weigh : List Evidence → ℕ
weigh [] = 0
weigh (e ∷ es) = weight e + weigh es

-- `_score` in hundredths: `round(100.0 * got / total, 2)`. No quotient by 215 is halfway between
-- two hundredths, so rounding to the nearest adds a half and drops the fraction.
unfoldable pub score : List Evidence → ℕ
score evidence = (20000 * weigh evidence + total_weight) / (2 * total_weight)

unfoldable pub has_strong : List Evidence → Bool
has_strong = any is_strong

unfoldable pub classify_evidence : List Evidence → AccountReconciliationStatus
classify_evidence evidence =
    if has_strong evidence && has amount_exact evidence && has currency_exact evidence
    then reconciled
    else if has_strong evidence && (has amount_exact evidence || has currency_exact evidence)
    then possible_reconciliation
    else if has amount_exact evidence && has currency_exact evidence
    then possible_reconciliation
    else if has_strong evidence
    then possible_reconciliation
    else unmatched_account_entry

-- `_classify`
unfoldable pub classify : List Evidence → List Conflict → AccountReconciliationStatus
classify evidence conflicts =
    if nonempty conflicts && objected currency_conflict conflicts
    then currency_mismatch
    else if nonempty conflicts && objected amount_conflict conflicts
    then amount_mismatch
    else if nonempty conflicts && objected account_conflict conflicts
    then account_mismatch
    else if nonempty conflicts
        && (objected credit_debit_conflict conflicts || objected id_conflict conflicts)
    then review_required
    else classify_evidence evidence

unfoldable pub reconcile_account_entry :
    Unicode
    → AccountEntry
    → Option AccountReference
    → LifecycleAccountContext
    → AccountReconciliationResult
reconcile_account_entry u entry account l =
    let log = collect u entry account l in
    record {
      classification = classify log.evidence log.conflicts;
      evidence = log.evidence;
      conflicts = log.conflicts;
      match_score = score log.evidence;
    }
