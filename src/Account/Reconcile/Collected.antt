-- ===== src/Account/Reconcile/Collected.antt =====
-- The evidence and the conflicts that `reconcile_account_entry` collects, against the facts.
use payment_ops.Prelude.{
  ◌≡◌, refl, Bool, true, false, ◌&&◌, ◌||◌, Option, none, some, List, [], ◌∷◌, ◌++◌, any-append,
  or-false, and-false, and-true, or_assoc, ◌==◌,
}
use payment_ops.Unicode.{Unicode}
use payment_ops.Domain.Account.{AccountReference, AccountEntry}
use payment_ops.Account.Identity.{LifecycleAccountContext, entry_identity}
use payment_ops.Account.Reconcile.Codes.{
  Evidence, uetr_exact, txid_exact, e2e_exact, instr_exact, account_servicer_exact, amount_exact,
  currency_exact, date_within_tolerance, account_exact, reference_normalized_exact,
  credit_debit_expected, Conflict, amount_conflict, currency_conflict, account_conflict,
  id_conflict, credit_debit_conflict, rank, rank_conflict, has, objected, Log, agreement, agrees,
  disagrees,
}
use payment_ops.Account.Reconcile.{
  compare_id, compare_value, note_if, object_if, judge_direction, amount_agreement,
  direction_agreement, entry_account, same_id, same_currency, same_account, same_reference,
  expected_direction, is_foreign_account, compare_ids, compare_money, compare_direction,
  compare_account, compare_reference, collect, reconcile_account_entry,
}

has-append :
    (e d : Evidence) (es : List Evidence) → has e (es ++ d ∷ []) ≡ (has e es || (rank e == rank d))
unfolding has
has-append e d es = simp (any-append, or-false)

objected-append :
    (c d : Conflict) (cs : List Conflict)
    → objected c (cs ++ d ∷ []) ≡ (objected c cs || (rank_conflict c == rank_conflict d))
unfolding objected
objected-append c d cs = simp (any-append, or-false)

has-compare_id :
    (e code : Evidence) (o : Option Bool) (log : Log)
    → has e (compare_id o code log).evidence
      ≡ (has e log.evidence || (agrees o && (rank e == rank code)))
unfolding compare_id agrees
has-compare_id e code none log = simp or-false
has-compare_id e code (some true) log = has-append e code log.evidence
has-compare_id e code (some false) log = simp or-false

objected-compare_id :
    (c : Conflict) (code : Evidence) (o : Option Bool) (log : Log)
    → objected c (compare_id o code log).conflicts ≡ (
        objected c log.conflicts || (disagrees o && (rank_conflict c == rank_conflict id_conflict)))
unfolding compare_id disagrees
objected-compare_id c code none log = simp or-false
objected-compare_id c code (some true) log = simp or-false
objected-compare_id c code (some false) log = objected-append c id_conflict log.conflicts

has-compare_value :
    (e code : Evidence) (c : Conflict) (o : Option Bool) (log : Log)
    → has e (compare_value o code c log).evidence
      ≡ (has e log.evidence || (agrees o && (rank e == rank code)))
unfolding compare_value agrees
has-compare_value e code c none log = simp or-false
has-compare_value e code c (some true) log = has-append e code log.evidence
has-compare_value e code c (some false) log = simp or-false

objected-compare_value :
    (d : Conflict) (code : Evidence) (c : Conflict) (o : Option Bool) (log : Log)
    → objected d (compare_value o code c log).conflicts
      ≡ (objected d log.conflicts || (disagrees o && (rank_conflict d == rank_conflict c)))
unfolding compare_value disagrees
objected-compare_value d code c none log = simp or-false
objected-compare_value d code c (some true) log = simp or-false
objected-compare_value d code c (some false) log = objected-append d c log.conflicts

has-note_if :
    (e code : Evidence) (b : Bool) (log : Log)
    → has e (note_if b code log).evidence ≡ (has e log.evidence || (b && (rank e == rank code)))
unfolding note_if
has-note_if e code true log = has-append e code log.evidence
has-note_if e code false log = simp or-false

conflicts-note_if :
    (code : Evidence) (b : Bool) (log : Log) → (note_if b code log).conflicts ≡ log.conflicts
unfolding note_if
conflicts-note_if code true log = refl
conflicts-note_if code false log = refl

has-judge_direction :
    (e : Evidence) (o : Option Bool) (foreign : Bool) (log : Log)
    → has e (judge_direction o foreign log).evidence
      ≡ (has e log.evidence || (agrees o && (rank e == rank credit_debit_expected)))
unfolding judge_direction object_if agrees
has-judge_direction e none true log = simp or-false
has-judge_direction e none false log = simp or-false
has-judge_direction e (some true) foreign log = has-append e credit_debit_expected log.evidence
has-judge_direction e (some false) foreign log = simp or-false

-- Whether the comparison of directions leaves the account itself to be judged.
unfoldable pub undirected : Option Bool → Bool
undirected none = true
undirected (some _) = false

objected-judge_direction :
    (c : Conflict) (o : Option Bool) (foreign : Bool) (log : Log)
    → objected c (judge_direction o foreign log).conflicts ≡ (
        objected c log.conflicts
        || ((undirected o && foreign && (rank_conflict c == rank_conflict account_conflict))
            || (disagrees o && (rank_conflict c == rank_conflict credit_debit_conflict))))
unfolding judge_direction object_if disagrees undirected
objected-judge_direction c none true log =
    simp (objected-append c account_conflict log.conflicts, or-false)
objected-judge_direction c none false log = simp or-false
objected-judge_direction c (some true) foreign log = simp or-false
objected-judge_direction c (some false) foreign log =
    objected-append c credit_debit_conflict log.conflicts

has-nil : (e : Evidence) → has e [] ≡ false
unfolding has
has-nil e = refl

objected-nil : (c : Conflict) → objected c [] ≡ false
unfolding objected
objected-nil c = refl

false-or : (b : Bool) → (false || b) ≡ b
false-or b = refl

ruleset collected_laws = (
  has-compare_id, has-compare_value, has-note_if, has-judge_direction, has-nil, objected-compare_id,
  objected-compare_value, conflicts-note_if, objected-judge_direction, objected-nil, or-false,
  and-false, and-true, or_assoc,
)

-- What the entry, its account and the lifecycle say, apart from how the lists are built.
module _ (u : Unicode) (entry : AccountEntry) (account : Option AccountReference)
    (l : LifecycleAccountContext) where
  abbrev pub to_creditor : Bool
  to_creditor = agrees (agreement (same_account u) (entry_account account) l.creditor_account)

  abbrev pub to_debtor : Bool
  to_debtor = agrees (agreement (same_account u) (entry_account account) l.debtor_account)

  abbrev pub direction : Option Bool
  direction =
      direction_agreement entry.credit_debit (expected_direction u (entry_account account) l)

  abbrev pub amounts : Option Bool
  amounts = amount_agreement (entry_identity entry account).amount_minor l.amount_minor

  abbrev pub currencies : Option Bool
  currencies = agreement (same_currency u) (entry_identity entry account).currency l.currency

  -- The facts that support a code.
  unfoldable pub supports : Evidence → Bool
  supports uetr_exact = agrees (agreement (same_id u) entry.uetr l.uetr)
  supports txid_exact = agrees (agreement (same_id u) entry.transaction_id l.transaction_id)
  supports e2e_exact = agrees (agreement (same_id u) entry.end_to_end_id l.end_to_end_id)
  supports instr_exact = agrees (agreement (same_id u) entry.instruction_id l.instruction_id)
  supports account_servicer_exact =
      agrees (agreement (same_id u) entry.account_servicer_reference l.account_servicer_reference)
  supports amount_exact = agrees amounts
  supports currency_exact = agrees currencies
  supports date_within_tolerance = false
  supports account_exact = to_creditor || to_debtor
  supports reference_normalized_exact =
      agrees (agreement (same_reference u) entry.remittance_reference l.reference)
  supports credit_debit_expected = agrees direction

  -- The facts that raise a conflict.
  unfoldable pub opposes : Conflict → Bool
  opposes amount_conflict = disagrees amounts
  opposes currency_conflict = disagrees currencies
  opposes account_conflict = undirected direction && is_foreign_account u (entry_account account) l
  opposes id_conflict =
      disagrees (agreement (same_id u) entry.uetr l.uetr)
      || disagrees (agreement (same_id u) entry.transaction_id l.transaction_id)
      || disagrees (agreement (same_id u) entry.end_to_end_id l.end_to_end_id)
      || disagrees (agreement (same_id u) entry.instruction_id l.instruction_id)
      || disagrees
          (agreement (same_id u) entry.account_servicer_reference l.account_servicer_reference)
  opposes credit_debit_conflict = disagrees direction

  pub collect-supports : (e : Evidence) → has e (collect u entry account l).evidence ≡ supports e
  unfolding collect compare_ids compare_money compare_account compare_direction compare_reference
      supports entry_identity
  collect-supports uetr_exact = simp collected_laws
  collect-supports _ = simp collected_laws

  pub collect-opposes :
      (c : Conflict) → objected c (collect u entry account l).conflicts ≡ opposes c
  unfolding collect compare_ids compare_money compare_account compare_direction compare_reference
      opposes entry_identity
  collect-opposes amount_conflict = simp collected_laws
  collect-opposes _ = simp collected_laws

-- For every entry, account and lifecycle, a code of evidence is reported exactly if the facts
-- support it, and a conflict exactly if the facts raise it.
pub reconcile-reports :
    (u : Unicode) (entry : AccountEntry) (account : Option AccountReference)
    (l : LifecycleAccountContext) (e : Evidence) (c : Conflict)
    → (has e (reconcile_account_entry u entry account l).evidence ≡ supports u entry account l e)
      × (objected c (reconcile_account_entry u entry account l).conflicts
          ≡ opposes u entry account l c)
unfolding reconcile_account_entry
reconcile-reports u entry account l e c =
    (collect-supports u entry account l e, collect-opposes u entry account l c)
