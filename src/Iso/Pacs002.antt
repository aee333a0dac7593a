-- ===== src/Iso/Pacs002.antt =====
-- packages/iso_engine/pacs002/adapter.py: a status report.
use payment_ops.Prelude.{
  Bool, Option, none, some, List, [], ◌∷◌, Text, codes, text_eq, any, map, ◌>>=◌, if◌then◌else◌,
}
use payment_ops.Domain.Lifecycle.{
  PaymentStatus, accepted, rejected, pending, processing, partially_accepted, unknown,
  RelatedPaymentReference, StatusReason, TransactionStatus, LifecycleStatusReport,
}
use payment_ops.Xml.{Node, child, children, child_text, before_first}
use payment_ops.Iso.{Formats, parse_datetime, SupportedVersion}
use payment_ops.Iso.Parties.{map_amount}

abbrev one_of : List Text → Text → Bool
one_of codes_of raw = any (λ c. text_eq c raw) codes_of

abbrev pub accepted_codes : List Text
accepted_codes = map codes ("ACCP" ∷ "ACSP" ∷ "ACWC" ∷ "ACSC" ∷ "ACCC" ∷ [])

unfoldable pub normalize_code : Text → PaymentStatus
normalize_code raw =
    if one_of accepted_codes raw
    then accepted
    else if text_eq raw (codes "RCVD")
    then processing
    else if text_eq raw (codes "PDNG")
    then pending
    else if text_eq raw (codes "PART")
    then partially_accepted
    else if one_of (codes "RJCT" ∷ codes "CANC" ∷ []) raw
    then rejected
    else unknown

-- `_normalize_status`
unfoldable pub normalize_status : Option Text → PaymentStatus
normalize_status none = unknown
normalize_status (some raw) = normalize_code raw

-- `_reasons`
unfoldable pub reasons : List Node → List StatusReason
reasons [] = []
reasons (inf ∷ rest) =
    let rsn = child (some inf) (codes "Rsn") in
    record {
      code = child_text rsn (codes "Cd");
      proprietary_code = child_text rsn (codes "Prprtry");
      additional_information = child_text (some inf) (codes "AddtlInf");
      originator = child_text (some inf) (codes "Orgnl");
      normalized_category = none;
    }
    ∷ reasons rest

-- The instructed amount of the original transaction.
abbrev pub instructed : Option Node → Option Node
instructed orgnl = child (child orgnl (codes "Amt")) (codes "InstdAmt")

-- `_reference`; `none` is the `ValidationError` of the amount.
unfoldable pub reference_of : Formats → Option Node → Option (Option RelatedPaymentReference)
reference_of f none = some none
reference_of f (some n) =
    let pmt_id = child (some n) (codes "PmtId") in
    map_amount f (instructed (some n)) >>= λ amount. some (
      some (record {
        message_id = none;
        message_definition = none;
        message_version = none;
        instruction_id = child_text pmt_id (codes "InstrId");
        end_to_end_id = child_text pmt_id (codes "EndToEndId");
        transaction_id = child_text pmt_id (codes "TxId");
        amount = amount;
        uetr = none;
      }))

unfoldable pub transaction_status : Formats → Node → Option TransactionStatus
transaction_status f tx =
    let orgnl = child (some tx) (codes "OrgnlTxRef") in
    map_amount f (instructed orgnl) >>= λ amount. reference_of f orgnl >>= λ reference.
    some (record {
      original_instruction_id = child_text (some tx) (codes "OrgnlInstrId");
      original_end_to_end_id = child_text (some tx) (codes "OrgnlEndToEndId");
      original_transaction_id = child_text (some tx) (codes "OrgnlTxId");
      raw_iso_status = child_text (some tx) (codes "TxSts");
      normalized_status = normalize_status (child_text (some tx) (codes "TxSts"));
      reasons = reasons (children (some tx) (codes "StsRsnInf"));
      amount = amount;
      reference = reference;
    })

unfoldable pub transaction_statuses : Formats → List Node → Option (List TransactionStatus)
transaction_statuses f [] = some []
transaction_statuses f (tx ∷ txs) =
    transaction_status f tx >>= λ first. transaction_statuses f txs >>= λ rest. some (first ∷ rest)

unfoldable pub report_of :
    Formats → Node → SupportedVersion → List TransactionStatus → LifecycleStatusReport
report_of f root version statuses =
    let msg_root = child (some root) version.root_element in
    let grp = child msg_root (codes "GrpHdr") in
    let orgnl_grp = child msg_root (codes "OrgnlGrpInfAndSts") in
    record {
      message_family = some (before_first b'.' version.identifier);
      message_definition = some version.message_name;
      message_version = some version.identifier;
      namespace = some version.namespace;
      message_id = child_text grp (codes "MsgId");
      creation_datetime = parse_datetime f (child_text grp (codes "CreDtTm"));
      original_message_id = child_text orgnl_grp (codes "OrgnlMsgId");
      original_message_definition = child_text orgnl_grp (codes "OrgnlMsgNmId");
      group_status_raw = child_text orgnl_grp (codes "GrpSts");
      group_status = normalize_status (child_text orgnl_grp (codes "GrpSts"));
      transaction_statuses = statuses;
    }

-- The elements of the transactions of a report.
abbrev pub reported : Node → SupportedVersion → List Node
reported root version = children (child (some root) version.root_element) (codes "TxInfAndSts")

unfoldable pub map_pacs002_to_status :
    Formats → Node → SupportedVersion → Option LifecycleStatusReport
map_pacs002_to_status f root version =
    transaction_statuses f (reported root version) >>= λ statuses.
    some (report_of f root version statuses)
