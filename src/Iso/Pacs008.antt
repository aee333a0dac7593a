-- ===== src/Iso/Pacs008.antt =====
-- packages/iso_engine/pacs008: identification and mapping of a customer credit transfer. Its helpers
-- for the tree, and for parties, accounts, agents and addresses, have the text of those in common.py
-- and parties.py, which stand for them. `none` is the `OverflowError` of an infinite amount, or the `ValidationError`
-- of a currency.
use mathlib.Core.Option
use payment_ops.Prelude.{ℕ, suc, Option, none, some, List, [], ◌∷◌, ◌++◌, Text, codes, ◌>>=◌}
use payment_ops.Prelude.Int.{ℤ, pos}
use payment_ops.Unicode.{strip}
use payment_ops.Domain.Payment.{
  MonetaryAmount, new_amount, PaymentMessage, PaymentTransaction, RemittanceInformation,
  SourceFormat, ValidationStatus,
}
use payment_ops.Mapping.Fresh.{show_index, new_transaction}
use payment_ops.Xml.{Node, text_of, child, children, texts, child_text}
use payment_ops.Iso.{Formats, cents, value_error, overflow, parse_datetime, SupportedVersion}
use payment_ops.Iso.Parties.{currency_of, map_party, map_account, map_agent}

abbrev pub amount_with : ℤ → Node → Option (Option MonetaryAmount)
amount_with minor n = Option.map (λ a. some a) (new_amount minor (currency_of n))

-- `(amt_el.text or "0").strip()`
abbrev pub amount_text : Option Text → Text
amount_text none = codes "0"
amount_text (some []) = codes "0"
amount_text (some (c ∷ s)) = strip (c ∷ s)

unfoldable pub map_amount : Formats → Option Node → Option (Option MonetaryAmount)
map_amount f none = some none
map_amount f (some n) = elim (f.float_cents (amount_text (text_of n))) [
  | cents minor ↦ amount_with minor n
  | value_error ↦ amount_with (pos 0) n
  | overflow ↦ none
]

-- The reference of structured remittance information is not read.
unfoldable pub map_remittance : Option Node → Text → Option RemittanceInformation
map_remittance none path = none
map_remittance (some n) path = some (record {
  unstructured = texts (children (some n) (codes "Ustrd"));
  reference = none;
  source_path = some path;
})

unfoldable pub transaction_path : ℕ → Text
transaction_path index =
    codes "/Document/FIToFICstmrCdtTrf/CdtTrfTxInf[" ++ show_index index ++ codes "]"

unfoldable pub transaction_of : Node → Text → Option MonetaryAmount → PaymentTransaction
transaction_of tx path amount =
    let pmt = child (some tx) (codes "PmtId") in
    record new_transaction {
      instruction_id = child_text pmt (codes "InstrId");
      end_to_end_id = child_text pmt (codes "EndToEndId");
      transaction_id = child_text pmt (codes "TxId");
      amount = amount;
      debtor = map_party (child (some tx) (codes "Dbtr")) (path ++ codes "/Dbtr");
      creditor = map_party (child (some tx) (codes "Cdtr")) (path ++ codes "/Cdtr");
      debtor_account = map_account (child (some tx) (codes "DbtrAcct")) (path ++ codes "/DbtrAcct");
      creditor_account =
          map_account (child (some tx) (codes "CdtrAcct")) (path ++ codes "/CdtrAcct");
      debtor_agent = map_agent (child (some tx) (codes "DbtrAgt")) (path ++ codes "/DbtrAgt");
      creditor_agent = map_agent (child (some tx) (codes "CdtrAgt")) (path ++ codes "/CdtrAgt");
      remittance = map_remittance (child (some tx) (codes "RmtInf")) (path ++ codes "/RmtInf");
      source_path = some path;
    }

unfoldable pub map_transaction : Formats → ℕ → Node → Option PaymentTransaction
map_transaction f index tx =
    map_amount f (child (child (some tx) (codes "Amt")) (codes "InstdAmt")) >>= λ amount.
    some (transaction_of tx (transaction_path index) amount)

-- The transactions from an index on.
unfoldable pub map_transactions : Formats → ℕ → List Node → Option (List PaymentTransaction)
map_transactions f index [] = some []
map_transactions f index (tx ∷ txs) = map_transaction f index tx >>= λ first.
    map_transactions f (suc index) txs >>= λ rest. some (first ∷ rest)

abbrev pub message_root : Node → Option Node
message_root root = child (some root) (codes "FIToFICstmrCdtTrf")

unfoldable pub message_of :
    Formats → Node → SupportedVersion → List PaymentTransaction → PaymentMessage
message_of f root version transactions =
    let grp = child (message_root root) (codes "GrpHdr") in
    record {
      message_type = some version.identifier;
      message_id = child_text grp (codes "MsgId");
      creation_datetime = parse_datetime f (child_text grp (codes "CreDtTm"));
      transactions = transactions;
      source_format = SourceFormat.xml_pacs_008;
      validation_status = ValidationStatus.pending;
    }

unfoldable pub map_pacs008_to_canonical : Formats → Node → SupportedVersion → Option PaymentMessage
map_pacs008_to_canonical f root version =
    map_transactions f 0 (children (message_root root) (codes "CdtTrfTxInf")) >>= λ transactions.
    some (message_of f root version transactions)
