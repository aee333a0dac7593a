-- ===== src/Iso/Pacs009.antt =====
-- packages/iso_engine/pacs009/adapter.py: a credit transfer between financial institutions.
use payment_ops.Prelude.{
  Bool, false, Option, none, some, List, [], ◌∷◌, ◌++◌, Text, codes, nonempty, ◌>>=◌, if◌then◌else◌,
}
use payment_ops.Domain.Payment.{
  MonetaryAmount, Party, PaymentMessage, PaymentTransaction, SourceFormat, ValidationStatus,
}
use payment_ops.Mapping.Fresh.{new_transaction, new_party, new_agent}
use payment_ops.Xml.{Node, kids, child, children, child_text}
use payment_ops.Iso.{Formats, parse_datetime, SupportedVersion}
use payment_ops.Iso.Parties.{map_amount, map_account, map_agent}

-- `_fi_party`
unfoldable pub fi_party : Option Node → Text → Option Party
fi_party none path = none
fi_party (some n) path =
    let fi_el = child (some n) (codes "FinInstnId") in
    some (record new_party {
      name = child_text fi_el (codes "Nm");
      financial_institution = some (record new_agent {
        bic = child_text fi_el (codes "BICFI");
        name = child_text fi_el (codes "Nm");
        source_path = some path;
      });
      source_path = some path;
    })

unfoldable pub transaction_of : Node → Option MonetaryAmount → PaymentTransaction
transaction_of tx amount =
    let path = codes "/FICdtTrf/CdtTrfTxInf" in
    let pmt_id = child (some tx) (codes "PmtId") in
    record new_transaction {
      instruction_id = child_text pmt_id (codes "InstrId");
      end_to_end_id = child_text pmt_id (codes "EndToEndId");
      transaction_id = child_text pmt_id (codes "TxId");
      amount = amount;
      debtor = fi_party (child (some tx) (codes "Dbtr")) (path ++ codes "/Dbtr");
      creditor = fi_party (child (some tx) (codes "Cdtr")) (path ++ codes "/Cdtr");
      debtor_agent = map_agent (child (some tx) (codes "DbtrAgt")) (path ++ codes "/DbtrAgt");
      creditor_agent = map_agent (child (some tx) (codes "CdtrAgt")) (path ++ codes "/CdtrAgt");
      debtor_account = map_account (child (some tx) (codes "DbtrAcct")) (path ++ codes "/DbtrAcct");
      creditor_account =
          map_account (child (some tx) (codes "CdtrAcct")) (path ++ codes "/CdtrAcct");
      source_path = some path;
    }

-- `none` is the `ValidationError` of an amount.
unfoldable pub map_transaction : Formats → Node → Option PaymentTransaction
map_transaction f tx =
    map_amount f (child (child (some tx) (codes "Amt")) (codes "InstdAmt")) >>= λ amount.
    some (transaction_of tx amount)

unfoldable pub map_transactions : Formats → List Node → Option (List PaymentTransaction)
map_transactions f [] = some []
map_transactions f (tx ∷ txs) =
    map_transaction f tx >>= λ first. map_transactions f txs >>= λ rest. some (first ∷ rest)

-- An lxml element is true if it has children.
abbrev pub has_kids : Option Node → Bool
has_kids none = false
has_kids (some n) = nonempty (kids n)

-- The variant of every transaction.
unfoldable pub variants : List Node → List Text
variants [] = []
variants (tx ∷ txs) =
    (if has_kids (child (some tx) (codes "UndrlygCstmrCdtTrf")) then codes "COV" else codes "CORE")
    ∷ variants txs

-- The bank identifiers of the intermediaries that are there.
unfoldable pub bics_of : Node → List Text → List Text
bics_of tx [] = []
bics_of tx (name ∷ names) =
    let rest = bics_of tx names in
    elim (child_text (child (child (some tx) name) (codes "FinInstnId")) (codes "BICFI")) [
      | none ↦ rest
      | some bic ↦ bic ∷ rest
    ]

-- `_intermediary_bics`
unfoldable pub intermediary_bics : Node → List Text
intermediary_bics tx =
    bics_of tx (codes "IntrmyAgt1" ∷ codes "IntrmyAgt2" ∷ codes "IntrmyAgt3" ∷ [])

-- The metadata of the source, other than the name of the message.
unfoldable pub settlement_method : Node → SupportedVersion → Option Text
settlement_method root version =
    child_text
      (child (child (child (some root) version.root_element) (codes "GrpHdr")) (codes "SttlmInf"))
      (codes "SttlmMtd")

unfoldable pub message_of :
    Formats → Node → SupportedVersion → List PaymentTransaction → PaymentMessage
message_of f root version transactions =
    let msg_root = child (some root) version.root_element in
    let grp = child msg_root (codes "GrpHdr") in
    record {
      message_type = some version.identifier;
      message_id = child_text grp (codes "MsgId");
      creation_datetime = parse_datetime f (child_text grp (codes "CreDtTm"));
      transactions = transactions;
      source_format = SourceFormat.xml_pacs_009;
      validation_status = ValidationStatus.pending;
    }

unfoldable pub map_pacs009_to_canonical : Formats → Node → SupportedVersion → Option PaymentMessage
map_pacs009_to_canonical f root version =
    map_transactions f (children (child (some root) version.root_element) (codes "CdtTrfTxInf"))
    >>= λ transactions. some (message_of f root version transactions)
