-- ===== src/Mapping/Fresh.antt =====
-- packages/mapping_engine/mapper.py: the models that a mapping starts from, and the prefix of the
-- paths of a transaction.
use payment_ops.Prelude.{
  ℕ, zero, suc, ◌+◌, Bool, true, false, none, [], ◌∷◌, ◌++◌, Text, codes, ◌==◌, if◌then◌else◌,
}
use payment_ops.Domain.Payment.{
  Account, FinancialInstitution, PostalAddress, Party, RemittanceInformation, PaymentTransaction,
  AddressReadiness, EvidenceLevel,
}

-- The number that follows, in decimal digits, and whether a digit is carried in front.
unfoldable pub increment : Text → Bool × Text
increment [] = (true, [])
increment (d ∷ ds) =
    let rest = increment ds in
    if rest.0
    then if d == b'9' then (true, b'0' ∷ rest.1) else (false, (d + 1) ∷ rest.1)
    else (false, d ∷ rest.1)

abbrev pub carried : Bool × Text → Text
carried p = if p.0 then b'1' ∷ p.1 else p.1

-- `str(i)` of an index.
unfoldable pub show_index : ℕ → Text
show_index zero = codes "0"
show_index (suc i) = carried (increment (show_index i))

-- `f"transactions[{i}]"`
unfoldable pub prefix_at : ℕ → Text
prefix_at i = codes "transactions[" ++ show_index i ++ codes "]"

abbrev pub new_address : PostalAddress
new_address = record {
  street_name = none;
  building_number = none;
  postcode = none;
  town_name = none;
  country = none;
  country_name = none;
  address_lines = [];
  source_path = none;
  readiness = AddressReadiness.unresolved;
  evidence_level = EvidenceLevel.low;
  original_fields = [];
  normalized_fields = [];
}

abbrev pub new_account : Account
new_account = record {
  iban = none;
  other_identification = none;
  currency = none;
  name = none;
  source_path = none;
}

abbrev pub new_agent : FinancialInstitution
new_agent = record {
  bic = none;
  clearing_system_member = none;
  name = none;
  postal_address = none;
  source_path = none;
}

abbrev pub new_party : Party
new_party = record {
  name = none;
  identification = [];
  postal_address = none;
  account = none;
  financial_institution = none;
  source_path = none;
}

abbrev pub new_remittance : RemittanceInformation
new_remittance = record { unstructured = []; reference = none; source_path = none }

abbrev pub new_transaction : PaymentTransaction
new_transaction = record {
  instruction_id = none;
  end_to_end_id = none;
  transaction_id = none;
  amount = none;
  debtor = none;
  creditor = none;
  debtor_account = none;
  creditor_account = none;
  debtor_agent = none;
  creditor_agent = none;
  remittance = none;
  requested_execution_date = none;
  source_path = none;
}
