-- ===== src/Iso/Camt.antt =====
-- packages/iso_engine/camt053/adapter.py and camt054/adapter.py: statements and notifications.
use payment_ops.Prelude.{ℕ, Option, none, some, List, [], ◌∷◌, codes, ◌>>=◌}
use payment_ops.Domain.Account.{
  AccountReport, AccountReportBundle, AccountBalance, AccountEntry, statement, notification,
}
use payment_ops.Xml.{Node, child, children, child_text, text}
use payment_ops.Iso.{Formats, parse_datetime, SupportedVersion}
use payment_ops.Iso.Entries.{map_account, map_entries, map_balances, date_of_text}

-- `_date` of camt.053: the text of the element itself.
unfoldable pub date_of_element : Formats → Option Node → Option ℕ
date_of_element f el = date_of_text f (text el)

-- A date is true.
abbrev pub date_or : Option ℕ → Option ℕ → Option ℕ
date_or none b = b
date_or (some a) b = some a

unfoldable pub statement_of :
    Formats
    → SupportedVersion
    → Option Node
    → Node
    → List AccountBalance
    → List AccountEntry
    → AccountReport
statement_of f version grp stmt balances entries =
    let period = child (some stmt) (codes "FrToDt") in
    record {
      message_family = some (codes "camt");
      message_definition = some version.message_name;
      message_version = some version.identifier;
      namespace = some version.namespace;
      message_id = child_text grp (codes "MsgId");
      creation_datetime = parse_datetime f (child_text grp (codes "CreDtTm"));
      report_type = statement;
      account = map_account (child (some stmt) (codes "Acct"));
      statement_id = child_text (some stmt) (codes "Id");
      notification_id = none;
      period_start =
          date_or (date_of_element f (child period (codes "FrDtTm")))
            (date_of_element f (child period (codes "FrDt")));
      period_end =
          date_or (date_of_element f (child period (codes "ToDtTm")))
            (date_of_element f (child period (codes "ToDt")));
      balances = balances;
      entries = entries;
    }

-- `none` is the `ValidationError` of an amount.
unfoldable pub statement_report :
    Formats → SupportedVersion → Option Node → Node → Option AccountReport
statement_report f version grp stmt =
    map_balances f (children (some stmt) (codes "Bal")) >>= λ balances.
    map_entries f (children (some stmt) (codes "Ntry")) (codes "/BkToCstmrStmt/Stmt/Ntry")
    >>= λ entries. some (statement_of f version grp stmt balances entries)

unfoldable pub statement_reports :
    Formats → SupportedVersion → Option Node → List Node → Option (List AccountReport)
statement_reports f version grp [] = some []
statement_reports f version grp (n ∷ ns) = statement_report f version grp n >>= λ first.
    statement_reports f version grp ns >>= λ rest. some (first ∷ rest)

unfoldable pub statements_of :
    Formats → Node → SupportedVersion → List AccountReport → AccountReportBundle
statements_of f root version reports =
    let msg_root = child (some root) (codes "BkToCstmrStmt") in
    let grp = child msg_root (codes "GrpHdr") in
    record {
      message_family = some (codes "camt");
      message_definition = some version.message_name;
      message_version = some version.identifier;
      namespace = some version.namespace;
      message_id = child_text grp (codes "MsgId");
      creation_datetime = parse_datetime f (child_text grp (codes "CreDtTm"));
      report_type = statement;
      reports = reports;
    }

unfoldable pub map_camt053_to_account_report :
    Formats → Node → SupportedVersion → Option AccountReportBundle
map_camt053_to_account_report f root version =
    let msg_root = child (some root) (codes "BkToCstmrStmt") in
    statement_reports f version (child msg_root (codes "GrpHdr")) (children msg_root (codes "Stmt"))
    >>= λ reports. some (statements_of f root version reports)

unfoldable pub notification_of :
    Formats → SupportedVersion → Option Node → Node → List AccountEntry → AccountReport
notification_of f version grp ntfctn entries = record {
  message_family = some (codes "camt");
  message_definition = some version.message_name;
  message_version = some version.identifier;
  namespace = some version.namespace;
  message_id = child_text grp (codes "MsgId");
  creation_datetime = parse_datetime f (child_text grp (codes "CreDtTm"));
  report_type = notification;
  account = map_account (child (some ntfctn) (codes "Acct"));
  statement_id = none;
  notification_id = child_text (some ntfctn) (codes "Id");
  period_start = none;
  period_end = none;
  balances = [];
  entries = entries;
}

unfoldable pub notification_report :
    Formats → SupportedVersion → Option Node → Node → Option AccountReport
notification_report f version grp ntfctn =
    map_entries f (children (some ntfctn) (codes "Ntry"))
      (codes "/BkToCstmrDbtCdtNtfctn/Ntfctn/Ntry")
    >>= λ entries. some (notification_of f version grp ntfctn entries)

unfoldable pub notification_reports :
    Formats → SupportedVersion → Option Node → List Node → Option (List AccountReport)
notification_reports f version grp [] = some []
notification_reports f version grp (n ∷ ns) = notification_report f version grp n >>= λ first.
    notification_reports f version grp ns >>= λ rest. some (first ∷ rest)

unfoldable pub notifications_of :
    Formats → Node → SupportedVersion → List AccountReport → AccountReportBundle
notifications_of f root version reports =
    let msg_root = child (some root) (codes "BkToCstmrDbtCdtNtfctn") in
    let grp = child msg_root (codes "GrpHdr") in
    record {
      message_family = some (codes "camt");
      message_definition = some version.message_name;
      message_version = some version.identifier;
      namespace = some version.namespace;
      message_id = child_text grp (codes "MsgId");
      creation_datetime = parse_datetime f (child_text grp (codes "CreDtTm"));
      report_type = notification;
      reports = reports;
    }

unfoldable pub map_camt054_to_account_report :
    Formats → Node → SupportedVersion → Option AccountReportBundle
map_camt054_to_account_report f root version =
    let msg_root = child (some root) (codes "BkToCstmrDbtCdtNtfctn") in
    notification_reports f version (child msg_root (codes "GrpHdr"))
      (children msg_root (codes "Ntfctn"))
    >>= λ reports. some (notifications_of f root version reports)
