-- ===== src/Domain/Samples.antt =====
-- Small values of packages/payment_domain/models.py, for tests.
use payment_ops.Prelude.{Option, none, some, [], ◌∷◌, codes}
use payment_ops.Prelude.Int.{pos}
use payment_ops.Domain.Payment.{
  PostalAddress, Party, PaymentTransaction, PaymentMessage, AddressReadiness, low, SourceFormat,
  ValidationStatus,
}

abbrev pub blank_address : PostalAddress
blank_address = record {
  street_name = none;
  building_number = none;
  postcode = none;
  town_name = none;
  country = none;
  country_name = none;
  address_lines = [];
  source_path = none;
  readiness = AddressReadiness.unresolved;
  evidence_level = low;
  original_fields = [];
  normalized_fields = [];
}

abbrev pub party : PostalAddress → Party
party address = record {
  name = some (codes "Ann");
  identification = [];
  postal_address = some address;
  account = none;
  financial_institution = none;
  source_path = none;
}

abbrev pub transaction : Option Party → Option Party → PaymentTransaction
transaction debtor creditor = record {
  instruction_id = some (codes "I-1");
  end_to_end_id = some (codes "E-1");
  transaction_id = some (codes "T-1");
  amount = some (record { amount_minor = pos 12500; currency = codes "EUR" });
  debtor = debtor;
  creditor = creditor;
  debtor_account = none;
  creditor_account = none;
  debtor_agent = none;
  creditor_agent = none;
  remittance = none;
  requested_execution_date = none;
  source_path = some (codes "transactions[0]");
}

abbrev pub message : PaymentTransaction → PaymentMessage
message tx = record {
  message_type = none;
  message_id = some (codes "M-1");
  creation_datetime = none;
  transactions = tx ∷ [];
  source_format = SourceFormat.csv;
  validation_status = ValidationStatus.pending;
}
