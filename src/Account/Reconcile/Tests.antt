-- ===== src/Account/Reconcile/Tests.antt =====
-- Runs of `reconcile_account_entry` on a credit to a known account, and the theorems on them.
use payment_ops.Prelude.{
  ◌≡◌, refl, true, false, ◌↔◌, ◌≤◌, Option, none, some, [], codes, Text, text_eq,
}
use payment_ops.Prelude.Int.{pos}
use payment_ops.Unicode.{translate, upper, strip, lstrip, is_space, remove_char}
use payment_ops.Unicode.Ascii.{ascii}
use payment_ops.Domain.Payment.{MonetaryAmount}
use payment_ops.Domain.Account.{AccountEntry, AccountReference, crdt, reconciled}
use payment_ops.Account.Identity.{LifecycleAccountContext, entry_identity}
use payment_ops.Matching.Normalize.{normalize_reference}
use payment_ops.Account.Reconcile.Codes.{
  uetr_exact, amount_conflict, Conflict, amount_exact, currency_exact, has, objected, agreement,
  agrees, disagrees,
}
use payment_ops.Account.Reconcile.{
  same_id, same_currency, same_account, same_reference, expected_direction, is_foreign_account,
  reconcile_account_entry,
}
use payment_ops.Account.Reconcile.Collected.{supports, opposes, reconcile-reports, undirected}
use payment_ops.Account.Reconcile.Verdict.{due, strong, reconcile-reconciled_iff}
use payment_ops.Account.Reconcile.Score.{reconcile-score_le}

abbrev text : Option Text
text = some (codes "X-1")

abbrev eur : MonetaryAmount
eur = record { amount_minor = pos 12500; currency = codes "EUR" }

abbrev account : AccountReference
account = record {
  iban = some (codes "DE89 3704");
  other_identification = none;
  currency = none;
  name = none;
  servicer_bic = none;
}

abbrev credit : AccountEntry
credit = record {
  entry_reference = none;
  account_servicer_reference = text;
  transaction_id = text;
  instruction_id = text;
  end_to_end_id = text;
  uetr = text;
  amount = some eur;
  currency = none;
  credit_debit = some crdt;
  booking_date = none;
  value_date = none;
  status = none;
  bank_transaction_code = none;
  remittance_reference = text;
  debtor = none;
  creditor = none;
  related_agents = [];
  original_message_reference = none;
}

-- A payment to the account, from another one.
abbrev payment : LifecycleAccountContext
payment = record {
  message_id = none;
  original_message_id = none;
  transaction_id = some (codes "x-1");
  end_to_end_id = text;
  instruction_id = text;
  uetr = text;
  account_servicer_reference = text;
  reference = text;
  amount_minor = some (pos 12500);
  currency = some (codes "eur");
  debtor_account = some (codes "FR76 3000");
  creditor_account = some (codes "de893704");
}

-- A payment between the account and itself.
abbrev transfer : LifecycleAccountContext
transfer = record payment { debtor_account = some (codes "DE89-3704") }

abbrev other_amount : LifecycleAccountContext
other_amount = record payment { amount_minor = some (pos 12600) }

-- References that consist of separators.
abbrev dashes : AccountEntry
dashes = record credit { remittance_reference = some (codes "--") }

abbrev dots : LifecycleAccountContext
dots = record payment { reference = some (codes "...") }

reconcile-reports_example :
    (has uetr_exact (reconcile_account_entry ascii credit (some account) payment).evidence
      ≡ supports ascii credit (some account) payment uetr_exact)
    × (objected amount_conflict
          (reconcile_account_entry ascii credit (some account) payment).conflicts
        ≡ opposes ascii credit (some account) payment amount_conflict)
reconcile-reports_example =
    reconcile-reports ascii credit (some account) payment uetr_exact amount_conflict

reconcile-reconciled_iff_example :
    ((reconcile_account_entry ascii credit (some account) payment).classification ≡ reconciled) ↔ (
      ((c : Conflict) → opposes ascii credit (some account) payment c ≡ false)
      × (strong ascii credit (some account) payment ≡ true)
      × (supports ascii credit (some account) payment amount_exact ≡ true)
      × (supports ascii credit (some account) payment currency_exact ≡ true))
reconcile-reconciled_iff_example = reconcile-reconciled_iff ascii credit (some account) payment

reconcile-score_le_example :
    (reconcile_account_entry ascii credit (some account) payment).match_score ≤ 10000
unfolding due strong supports opposes undirected agreement agrees disagrees same_id same_currency
    same_account same_reference expected_direction is_foreign_account upper strip lstrip translate
    is_space remove_char entry_identity text_eq normalize_reference
reconcile-score_le_example = reconcile-score_le ascii credit (some account) payment refl
