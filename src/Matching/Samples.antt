-- ===== src/Matching/Samples.antt =====
-- Numbers, records and a policy for the tests of the matching engine.
use payment_ops.Prelude.{
  ℕ, ◌+◌, ◌-◌, ◌*◌, ◌/◌, not, none, some, [], ◌∷◌, codes, text_eq, leb, ltb, ◌==◌, if◌then◌else◌,
}
use payment_ops.Matching.Numbers.{Numbers}
use payment_ops.Matching.Records.{MatchRecord, MatchingPolicy, RecordType}

-- Whole numbers for floats and amounts; two texts are alike if they are equal.
abbrev pub whole : Numbers
whole = record {
  Float = ℕ;
  float = λ x. x;
  add = λ x y. x + y;
  mul = λ x y. x * y;
  div = λ x y. x / y;
  round2 = λ x. x;
  nonzero = λ x. not (x == 0);
  le = leb;
  lt = ltb;
  Decimal = ℕ;
  decimal = λ x. x;
  dec_add = λ x y. x + y;
  dec_sub = λ x y. x - y;
  dec_mul = λ x y. x * y;
  dec_div = λ x y. x / y;
  dec_abs = λ x. x;
  dec_max = λ x y. if leb x y then y else x;
  dec_eq = λ x y. x == y;
  dec_le = leb;
  of_float = λ x. x;
  show_decimal = λ x. [];
  format_date = λ d. [];
  parse_date = λ s. none;
  fuzz = λ name s t. if text_eq s t then 100 else 0;
}

abbrev pub payment : MatchRecord whole
payment = record {
  record_id = codes "R-1";
  record_type = RecordType.payment;
  organization_id = codes "ORG";
  instruction_id = none;
  end_to_end_id = none;
  transaction_id = some (codes "tx 1");
  amount = some 12500;
  currency = some (codes "EUR");
  booking_date = none;
  value_date = none;
  debtor_name = none;
  creditor_name = none;
  debtor_account = none;
  creditor_account = none;
  debtor_agent = none;
  creditor_agent = none;
  remittance_reference = none;
  external_reference = none;
  country = none;
}

abbrev pub invoice : MatchRecord whole
invoice = record payment { record_type = RecordType.invoice; transaction_id = some (codes "TX  1") }

abbrev pub blank : MatchRecord whole
blank = record payment { transaction_id = none; amount = none; currency = none }

abbrev pub policy : MatchingPolicy whole
policy = record {
  version = 1;
  field_weights = ("transaction_id", 40) ∷ ("amount", 30) ∷ ("currency", 10) ∷ [];
  thresholds = ("matched", 85) ∷ ("possible_match", 60) ∷ ("review", 40) ∷ [];
  date_tolerances = [];
  amount_tolerances = [];
  critical_fields = "currency" ∷ [];
  fuzzy_algorithms = [];
}
