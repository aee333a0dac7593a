-- ===== src/Account/Ingest/Tests.antt =====
-- The same statement ingested twice.
use payment_ops.Prelude.{none, some, [], ◌∷◌, codes}
use payment_ops.Prelude.Int.{pos}
use payment_ops.Unicode.Ascii.{ascii}
use payment_ops.Domain.Account.{AccountReport, AccountEntry, crdt, statement}
use payment_ops.Account.Ingest.{Hashing, Tables}
use payment_ops.Account.Ingest.Entries.{ingest_account_report}
use payment_ops.Account.Ingest.Counted.{IsOnce}
use payment_ops.Account.Ingest.Once.{Reach, Reach-IsOnce}

-- Each text is its own digest.
abbrev plain : Hashing
plain = record { digest = λ s. s; show_int = λ i. codes "1" }

abbrev credit : AccountEntry
credit = record {
  entry_reference = none;
  account_servicer_reference = none;
  transaction_id = some (codes "T-1");
  instruction_id = none;
  end_to_end_id = none;
  uetr = none;
  amount = some (record { amount_minor = pos 1; currency = codes "EUR" });
  currency = some (codes "EUR");
  credit_debit = some crdt;
  booking_date = none;
  value_date = none;
  status = none;
  bank_transaction_code = none;
  remittance_reference = none;
  debtor = none;
  creditor = none;
  related_agents = [];
  original_message_reference = none;
}

abbrev day : AccountReport
day = record {
  message_family = none;
  message_definition = none;
  message_version = none;
  namespace = none;
  message_id = none;
  creation_datetime = none;
  report_type = statement;
  account = none;
  statement_id = none;
  notification_id = none;
  period_start = none;
  period_end = none;
  balances = [];
  entries = credit ∷ credit ∷ [];
}

abbrev empty : Tables
empty = record {
  next_id = 0;
  reports = [];
  entries = [];
  reconciliations = [];
  lifecycles = [];
  events = [];
  cases = [];
  audit = [];
}

Reach-IsOnce_example : IsOnce (
    ingest_account_report ascii plain 7
      (day ∷ [])
      (ingest_account_report ascii plain 7 (day ∷ []) empty))
Reach-IsOnce_example =
    Reach-IsOnce ascii plain []
      (ingest_account_report ascii plain 7 (day ∷ [])
        (ingest_account_report ascii plain 7 (day ∷ []) empty))
      (Reach.ingested 7 (day ∷ []) (Reach.ingested 7 (day ∷ []) Reach.start))
