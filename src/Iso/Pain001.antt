-- ===== src/Iso/Pain001.antt =====
-- packages/iso_engine/pain001/adapter.py: a customer credit transfer initiation, whose payment
-- blocks are flattened.
use payment_ops.Prelude.{Option, some, List, [], ◌∷◌, ◌++◌, Text, codes, or_else, ◌>>=◌}
use payment_ops.Domain.Payment.{
  Account, FinancialInstitution, MonetaryAmount, Party, PaymentMessage, PaymentTransaction,
  SourceFormat, ValidationStatus,
}
use payment_ops.Mapping.Fresh.{new_transaction}
use payment_ops.Xml.{Node, child, children, child_text}
use payment_ops.Iso.{Formats, parse_datetime, SupportedVersion}
use payment_ops.Iso.Parties.{map_amount, map_party, map_account, map_agent, map_remittance}

-- What the transactions of a block share.
pub record Block : Type 0 where
  pub debtor : Option Party
  pub debtor_account : Option Account
  pub debtor_agent : Option FinancialInstitution
  pub execution : Option Text

abbrev pub block_path : Text
block_path = codes "/CstmrCdtTrfInitn/PmtInf"

unfoldable pub block_of : Node → Block
block_of pmt_inf = record {
  debtor = map_party (child (some pmt_inf) (codes "Dbtr")) (block_path ++ codes "/Dbtr");
  debtor_account =
      map_account (child (some pmt_inf) (codes "DbtrAcct")) (block_path ++ codes "/DbtrAcct");
  debtor_agent =
      map_agent (child (some pmt_inf) (codes "DbtrAgt")) (block_path ++ codes "/DbtrAgt");
  execution =
      or_else (child_text (some pmt_inf) (codes "ReqdExctnDt"))
        (child_text (some pmt_inf) (codes "ReqdExctnDtTm"));
}

unfoldable pub transaction_of : Formats → Block → Node → Option MonetaryAmount → PaymentTransaction
transaction_of f block tx amount =
    let path = block_path ++ codes "/CdtTrfTxInf" in
    let pmt_id = child (some tx) (codes "PmtId") in
    record new_transaction {
      instruction_id = child_text pmt_id (codes "InstrId");
      end_to_end_id = child_text pmt_id (codes "EndToEndId");
      transaction_id = child_text pmt_id (codes "TxId");
      amount = amount;
      debtor = block.debtor;
      creditor = map_party (child (some tx) (codes "Cdtr")) (path ++ codes "/Cdtr");
      debtor_account = block.debtor_account;
      creditor_account =
          map_account (child (some tx) (codes "CdtrAcct")) (path ++ codes "/CdtrAcct");
      debtor_agent = block.debtor_agent;
      creditor_agent = map_agent (child (some tx) (codes "CdtrAgt")) (path ++ codes "/CdtrAgt");
      remittance = map_remittance (child (some tx) (codes "RmtInf")) (path ++ codes "/RmtInf");
      requested_execution_date = parse_datetime f block.execution;
      source_path = some path;
    }

-- `none` is the `ValidationError` of an amount.
unfoldable pub map_transaction : Formats → Block → Node → Option PaymentTransaction
map_transaction f block tx =
    map_amount f (child (child (some tx) (codes "Amt")) (codes "InstdAmt")) >>= λ amount.
    some (transaction_of f block tx amount)

unfoldable pub map_block : Formats → Block → List Node → Option (List PaymentTransaction)
map_block f block [] = some []
map_block f block (tx ∷ txs) =
    map_transaction f block tx >>= λ first. map_block f block txs >>= λ rest. some (first ∷ rest)

unfoldable pub map_blocks : Formats → List Node → Option (List PaymentTransaction)
map_blocks f [] = some []
map_blocks f (pmt_inf ∷ pmt_infs) =
    map_block f (block_of pmt_inf) (children (some pmt_inf) (codes "CdtTrfTxInf")) >>= λ first.
    map_blocks f pmt_infs >>= λ rest. some (first ++ rest)

unfoldable pub message_of :
    Formats → Node → SupportedVersion → List PaymentTransaction → PaymentMessage
message_of f root version transactions =
    let msg_root = child (some root) version.root_element in
    let grp = child msg_root (codes "GrpHdr") in
    record {
      message_type = some version.identifier;
      message_id = child_text grp (codes "MsgId");
      creation_datetime = parse_datetime f (child_text grp (codes "CreDtTm"));
      transactions = transactions;
      source_format = SourceFormat.xml_pain_001;
      validation_status = ValidationStatus.pending;
    }

unfoldable pub map_pain001_to_canonical : Formats → Node → SupportedVersion → Option PaymentMessage
map_pain001_to_canonical f root version =
    map_blocks f (children (child (some root) version.root_element) (codes "PmtInf"))
    >>= λ transactions. some (message_of f root version transactions)
