-- ===== src/Account/Identity.antt =====
-- packages/iso_engine/account/identity.py
use payment_ops.Prelude.{Option, none, some, Text, or_else}
use payment_ops.Prelude.Int.{ℤ}
use payment_ops.Domain.Payment.{MonetaryAmount}
use payment_ops.Domain.Account.{AccountReference, AccountEntry}

-- The identifiers of a payment lifecycle that bear on an account.
pub record LifecycleAccountContext : Type 0 where
  pub message_id : Option Text
  pub original_message_id : Option Text
  pub transaction_id : Option Text
  pub end_to_end_id : Option Text
  pub instruction_id : Option Text
  pub uetr : Option Text
  pub account_servicer_reference : Option Text
  pub reference : Option Text
  pub amount_minor : Option ℤ
  pub currency : Option Text
  pub debtor_account : Option Text
  pub creditor_account : Option Text

pub record EntryIdentity : Type 0 where
  pub uetr : Option Text
  pub transaction_id : Option Text
  pub end_to_end_id : Option Text
  pub instruction_id : Option Text
  pub account_servicer_reference : Option Text
  pub entry_reference : Option Text
  pub reference : Option Text
  pub amount_minor : Option ℤ
  pub currency : Option Text
  pub account : Option Text

abbrev pub amount_minor_of : Option MonetaryAmount → Option ℤ
amount_minor_of none = none
amount_minor_of (some m) = some m.amount_minor

abbrev pub currency_of : Option MonetaryAmount → Option Text
currency_of none = none
currency_of (some m) = some m.currency

abbrev pub iban_of : Option AccountReference → Option Text
iban_of none = none
iban_of (some a) = a.iban

abbrev pub other_of : Option AccountReference → Option Text
other_of none = none
other_of (some a) = a.other_identification

unfoldable pub entry_identity : AccountEntry → Option AccountReference → EntryIdentity
entry_identity entry account = record {
  uetr = entry.uetr;
  transaction_id = entry.transaction_id;
  end_to_end_id = entry.end_to_end_id;
  instruction_id = entry.instruction_id;
  account_servicer_reference = entry.account_servicer_reference;
  entry_reference = entry.entry_reference;
  reference = entry.remittance_reference;
  amount_minor = amount_minor_of entry.amount;
  currency = or_else entry.currency (currency_of entry.amount);
  account = or_else (iban_of account) entry.account_servicer_reference;
}
