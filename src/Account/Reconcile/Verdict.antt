-- ===== src/Account/Reconcile/Verdict.antt =====
-- The classification of `reconcile_account_entry`, from the facts.
use payment_ops.Prelude.{
  ◌≡◌, refl, sym, ◌∙◌, ◌↔◌, Bool, true, false, ◌&&◌, ◌||◌, Option, List, [], ◌∷◌, arith, nonempty,
  if◌then◌else◌,
}
use payment_ops.Unicode.{Unicode}
use payment_ops.Domain.Account.{
  AccountReconciliationStatus, reconciled, possible_reconciliation, unmatched_account_entry,
  amount_mismatch, currency_mismatch, account_mismatch, review_required, AccountReference,
  AccountEntry,
}
use payment_ops.Account.Identity.{LifecycleAccountContext}
use payment_ops.Account.Reconcile.Codes.{
  Evidence, uetr_exact, txid_exact, e2e_exact, instr_exact, amount_exact, currency_exact, Conflict,
  amount_conflict, currency_conflict, account_conflict, id_conflict, credit_debit_conflict, has,
  objected, is_strong,
}
use payment_ops.Account.Reconcile.{
  has_strong, classify_evidence, classify, collect, reconcile_account_entry,
}
use payment_ops.Account.Reconcile.Collected.{supports, opposes, collect-supports, collect-opposes}

has_strong-cons :
    (e : Evidence) (es : List Evidence) → has_strong (e ∷ es) ≡ (is_strong e || has_strong es)
unfolding has_strong
has_strong-cons e es = refl

-- Strong evidence is one of four codes.
has_strong_lem :
    (es : List Evidence)
    → has_strong es
      ≡ (has uetr_exact es || has txid_exact es || has e2e_exact es || has instr_exact es)
unfolding has has_strong
has_strong_lem [] = refl
has_strong_lem (uetr_exact ∷ es) = refl
has_strong_lem (txid_exact ∷ es) = ground arith
has_strong_lem (e2e_exact ∷ es) = ground arith
has_strong_lem (instr_exact ∷ es) = ground arith
has_strong_lem (_ ∷ es) = has_strong_lem es

nonempty-objected :
    (c : Conflict) (cs : List Conflict) → (nonempty cs && objected c cs) ≡ objected c cs
unfolding objected
nonempty-objected c [] = refl
nonempty-objected c (d ∷ cs) = refl

-- The classification that the facts call for, mismatches first.
unfoldable pub due :
    (ccy amount account direction id strong same_amount same_ccy : Bool)
    → AccountReconciliationStatus
due ccy amount account direction id strong same_amount same_ccy =
    if ccy
    then currency_mismatch
    else if amount
    then amount_mismatch
    else if account
    then account_mismatch
    else if direction || id
    then review_required
    else if strong && same_amount && same_ccy
    then reconciled
    else if strong || (same_amount && same_ccy)
    then possible_reconciliation
    else unmatched_account_entry

module _ (es : List Evidence) (cs : List Conflict) where
  classify-due :
      classify es cs
      ≡ due
          (objected currency_conflict cs)
          (objected amount_conflict cs)
          (objected account_conflict cs)
          (objected credit_debit_conflict cs)
          (objected id_conflict cs)
          (has_strong es)
          (has amount_exact es)
          (has currency_exact es)
  unfolding classify classify_evidence due
  classify-due = ground (
    arith,
    nonempty-objected currency_conflict cs,
    nonempty-objected amount_conflict cs,
    nonempty-objected account_conflict cs,
    nonempty-objected credit_debit_conflict cs,
    nonempty-objected id_conflict cs,
  )

due-reconciled :
    (ccy amount acct direction id s same_amount same_ccy : Bool)
    → due ccy amount acct direction id s same_amount same_ccy ≡ reconciled
    → (ccy ≡ false)
      × (amount ≡ false)
      × (acct ≡ false)
      × (direction ≡ false)
      × (id ≡ false)
      × (s ≡ true)
      × (same_amount ≡ true)
      × (same_ccy ≡ true)
unfolding due
due-reconciled ccy amount acct direction id s same_amount same_ccy h = ground arith

module _ (u : Unicode) (entry : AccountEntry) (account : Option AccountReference)
    (l : LifecycleAccountContext) where
  -- One of the four strong identifiers agrees.
  unfoldable pub strong : Bool
  strong =
      supports u entry account l uetr_exact
      || supports u entry account l txid_exact
      || supports u entry account l e2e_exact
      || supports u entry account l instr_exact

  -- The classification is the one that the facts call for: a currency, amount or account mismatch
  -- first, then a review for a wrong direction or identifier, then a reconciliation.
  pub reconcile-classification :
      (reconcile_account_entry u entry account l).classification
      ≡ due
          (opposes u entry account l currency_conflict)
          (opposes u entry account l amount_conflict)
          (opposes u entry account l account_conflict)
          (opposes u entry account l credit_debit_conflict)
          (opposes u entry account l id_conflict)
          strong
          (supports u entry account l amount_exact)
          (supports u entry account l currency_exact)
  unfolding reconcile_account_entry strong
  reconcile-classification =
      rw classify-due (
        simp
          (has_strong_lem, collect-supports u entry account l, collect-opposes u entry account l))

  -- An entry is reported as reconciled exactly if nothing is opposed, one strong identifier agrees,
  -- and amount and currency agree.
  pub reconcile-reconciled_iff :
      ((reconcile_account_entry u entry account l).classification ≡ reconciled) ↔ (
        ((c : Conflict) → opposes u entry account l c ≡ false)
        × (strong ≡ true)
        × (supports u entry account l amount_exact ≡ true)
        × (supports u entry account l currency_exact ≡ true))
  unfolding due
  reconcile-reconciled_iff = (
    λ h.
        let (ccy, amount, acct, direction, id, s, a, c) =
          due-reconciled _ _ _ _ _ _ _ _ (sym reconcile-classification ∙ h) in
        (all_false ccy amount acct direction id, s, a, c),
    λ (quiet, s, a, c).
        reconcile-classification
        ∙ rw
            (
              quiet currency_conflict,
              quiet amount_conflict,
              quiet account_conflict,
              quiet credit_debit_conflict,
              quiet id_conflict,
              s,
              a,
              c,
            )
            refl,
  )
    where
      all_false :
          opposes u entry account l currency_conflict ≡ false
          → opposes u entry account l amount_conflict ≡ false
          → opposes u entry account l account_conflict ≡ false
          → opposes u entry account l credit_debit_conflict ≡ false
          → opposes u entry account l id_conflict ≡ false
          → (c : Conflict) → opposes u entry account l c ≡ false
      all_false ccy amount acct direction id currency_conflict = ccy
      all_false ccy amount acct direction id amount_conflict = amount
      all_false ccy amount acct direction id account_conflict = acct
      all_false ccy amount acct direction id credit_debit_conflict = direction
      all_false ccy amount acct direction id id_conflict = id

-- The classifications that keep an entry from being reconciled: a mismatch or a review.
pub data IsStopped : AccountReconciliationStatus → Type 0 where
  by_currency : IsStopped currency_mismatch
  by_amount : IsStopped amount_mismatch
  by_account : IsStopped account_mismatch
  by_review : IsStopped review_required

due-IsStopped :
    (ccy amount acct direction id s same_amount same_ccy : Bool)
    → (ccy || amount || acct || direction || id) ≡ true
    → IsStopped (due ccy amount acct direction id s same_amount same_ccy)
unfolding due
due-IsStopped true amount acct direction id s a c h = by_currency
due-IsStopped false true acct direction id s a c h = by_amount
due-IsStopped false false true direction id s a c h = by_account
due-IsStopped false false false true id s a c h = by_review
due-IsStopped false false false false true s a c h = by_review
due-IsStopped false false false false false s a c h = cc

some_objected :
    (cs : List Conflict)
    → nonempty cs ≡ true
    → (objected currency_conflict cs
        || objected amount_conflict cs
        || objected account_conflict cs
        || objected credit_debit_conflict cs
        || objected id_conflict cs)
      ≡ true
unfolding objected
some_objected [] h = cc
some_objected (amount_conflict ∷ cs) h = ground arith
some_objected (_ ∷ cs) h = ground arith

-- If a comparison reported a conflict, the entry is a mismatch of currency, amount or account or
-- is sent to review, whatever evidence stands beside the conflict.
pub reconcile-IsStopped :
    (u : Unicode) (entry : AccountEntry) (account : Option AccountReference)
    (l : LifecycleAccountContext)
    → nonempty (reconcile_account_entry u entry account l).conflicts ≡ true
    → IsStopped (reconcile_account_entry u entry account l).classification
unfolding reconcile_account_entry
reconcile-IsStopped u entry account l h =
    rw classify-due
      (due-IsStopped _ _ _ _ _ _ _ _ (some_objected (collect u entry account l).conflicts h))
