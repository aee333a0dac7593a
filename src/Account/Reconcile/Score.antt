-- ===== src/Account/Reconcile/Score.antt =====
-- The score of `reconcile_account_entry`, and its bounds.
use payment_ops.Prelude.{
  ℕ, ◌+◌, ◌*◌, ◌/◌, ◌≤◌, ◌≡◌, refl, Bool, true, false, ◌&&◌, Option, none, some, List, [], ◌∷◌,
  ◌++◌, arith, if◌then◌else◌,
}
use payment_ops.Unicode.{Unicode}
use payment_ops.Domain.Account.{AccountReference, AccountEntry}
use payment_ops.Account.Identity.{LifecycleAccountContext, entry_identity}
use payment_ops.Account.Reconcile.Codes.{
  Evidence, uetr_exact, txid_exact, e2e_exact, instr_exact, account_servicer_exact, amount_exact,
  currency_exact, reference_normalized_exact, credit_debit_expected, Conflict, Log, agrees,
}
use payment_ops.Account.Reconcile.{
  compare_id, compare_value, note_if, object_if, judge_direction, compare_ids, compare_money,
  compare_direction, compare_account, compare_reference, collect, weight, weigh, score,
  reconcile_account_entry,
}
use payment_ops.Account.Reconcile.Collected.{supports, to_creditor, to_debtor}

-- What a comparison adds to the points.
unfoldable pub gain : Bool → ℕ → ℕ
gain b w = if b then w else 0

weigh-append : (es : List Evidence) (d : Evidence) → weigh (es ++ d ∷ []) ≡ weigh es + weight d
unfolding weigh
weigh-append [] d = omega arith
weigh-append (e ∷ es) d = omega (arith, weigh-append es d)

weigh-compare_id :
    (code : Evidence) (o : Option Bool) (log : Log)
    → weigh (compare_id o code log).evidence ≡ weigh log.evidence + gain (agrees o) (weight code)
unfolding compare_id agrees gain
weigh-compare_id code none log = omega arith
weigh-compare_id code (some true) log = weigh-append log.evidence code
weigh-compare_id code (some false) log = omega arith

weigh-compare_value :
    (code : Evidence) (c : Conflict) (o : Option Bool) (log : Log)
    → weigh (compare_value o code c log).evidence
      ≡ weigh log.evidence + gain (agrees o) (weight code)
unfolding compare_value agrees gain
weigh-compare_value code c none log = omega arith
weigh-compare_value code c (some true) log = weigh-append log.evidence code
weigh-compare_value code c (some false) log = omega arith

weigh-note_if :
    (code : Evidence) (b : Bool) (log : Log)
    → weigh (note_if b code log).evidence ≡ weigh log.evidence + gain b (weight code)
unfolding note_if gain
weigh-note_if code true log = weigh-append log.evidence code
weigh-note_if code false log = omega arith

weigh-judge_direction :
    (o : Option Bool) (foreign : Bool) (log : Log)
    → weigh (judge_direction o foreign log).evidence ≡ weigh log.evidence + gain (agrees o) 5
unfolding judge_direction object_if agrees gain
weigh-judge_direction none true log = omega arith
weigh-judge_direction none false log = omega arith
weigh-judge_direction (some true) foreign log = weigh-append log.evidence credit_debit_expected
weigh-judge_direction (some false) foreign log = omega arith

ruleset weigh_laws =
    (arith, weigh-compare_id, weigh-compare_value, weigh-note_if, weigh-judge_direction)

module _ (u : Unicode) (entry : AccountEntry) (account : Option AccountReference)
    (l : LifecycleAccountContext) where
  -- The points that the facts are worth. The entry's account counts once for each account of the
  -- lifecycle that it is.
  unfoldable pub points : ℕ
  points =
      gain (supports u entry account l uetr_exact) 40
      + gain (supports u entry account l txid_exact) 40
      + gain (supports u entry account l e2e_exact) 30
      + gain (supports u entry account l instr_exact) 20
      + gain (supports u entry account l account_servicer_exact) 20
      + gain (supports u entry account l amount_exact) 20
      + gain (supports u entry account l currency_exact) 10
      + gain (to_creditor u entry account l) 15
      + gain (to_debtor u entry account l) 15
      + gain (supports u entry account l credit_debit_expected) 5
      + gain (supports u entry account l reference_normalized_exact) 15

  weigh-collect : weigh (collect u entry account l).evidence ≡ points
  unfolding collect compare_ids compare_money compare_account compare_direction compare_reference
      entry_identity weigh supports points
  weigh-collect = omega weigh_laws

gain-le : (b : Bool) (w : ℕ) → gain b w ≤ w
unfolding gain
gain-le true w = omega arith
gain-le false w = omega arith

gain_either : (a b : Bool) (w : ℕ) → (a && b) ≡ false → gain a w + gain b w ≤ w
unfolding gain
gain_either a b w h = ground arith

-- The score is the share of the points in the total weight, rounded to hundredths.
pub reconcile-score :
    (u : Unicode) (entry : AccountEntry) (account : Option AccountReference)
    (l : LifecycleAccountContext)
    → (reconcile_account_entry u entry account l).match_score
      ≡ (20000 * points u entry account l + 215) / 430
unfolding reconcile_account_entry score
reconcile-score u entry account l = rw (weigh-collect u entry account l)

-- The score is at most 100, unless the entry's account is both accounts of the lifecycle.
pub reconcile-score_le :
    (u : Unicode) (entry : AccountEntry) (account : Option AccountReference)
    (l : LifecycleAccountContext)
    → (to_creditor u entry account l && to_debtor u entry account l) ≡ false
    → (reconcile_account_entry u entry account l).match_score ≤ 10000
unfolding points
reconcile-score_le u entry account l h = rw (reconcile-score u entry account l) (
    omega (
      arith,
      gain-le,
      gain_either (to_creditor u entry account l) (to_debtor u entry account l) 15 h,
    ))

-- An entry on an account that the lifecycle names twice scores more than 100, 106.98, when all
-- else agrees.
pub reconcile-score_above :
    (u : Unicode) (entry : AccountEntry) (account : Option AccountReference)
    (l : LifecycleAccountContext)
    → to_creditor u entry account l ≡ true
    → to_debtor u entry account l ≡ true
    → supports u entry account l uetr_exact ≡ true
    → supports u entry account l txid_exact ≡ true
    → supports u entry account l e2e_exact ≡ true
    → supports u entry account l instr_exact ≡ true
    → supports u entry account l account_servicer_exact ≡ true
    → supports u entry account l amount_exact ≡ true
    → supports u entry account l currency_exact ≡ true
    → supports u entry account l credit_debit_expected ≡ true
    → supports u entry account l reference_normalized_exact ≡ true
    → (reconcile_account_entry u entry account l).match_score ≡ 10698
unfolding points gain
reconcile-score_above u entry account l c d a1 a2 a3 a4 a5 a6 a7 a8 a9 =
    rw (reconcile-score u entry account l) (rw (c, d, a1, a2, a3, a4, a5, a6, a7, a8, a9) refl)
