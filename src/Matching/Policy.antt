-- ===== src/Matching/Policy.antt =====
-- packages/matching_engine/policy.py: the default policy, and its critical fields.
use payment_ops.Prelude.{ℕ, ◌≡◌, refl, ◌∙◌, String, Bool, true, false, List, [], ◌∷◌}
use payment_ops.Prelude.Int.{ℤ, pos}
use payment_ops.Unicode.{Unicode}
use payment_ops.Matching.Numbers.{Numbers}
use payment_ops.Matching.Records.{Field, MatchRecord, MatchingPolicy}
use payment_ops.Matching.Evaluate.{is_critical, is_mismatch, evaluate_pair}
use payment_ops.Matching.Safety.{is_match, compared, evaluate_pair-critical}

-- `DEFAULT_CRITICAL_FIELDS`
unfoldable pub default_critical_fields : List String
default_critical_fields =
    "currency" ∷ "amount" ∷ "transaction_id" ∷ "debtor_account" ∷ "creditor_account" ∷ []

-- `DEFAULT_DATE_TOLERANCES`
unfoldable pub default_date_tolerances : List (String × ℤ)
default_date_tolerances = ("booking_date", pos 3) ∷ ("value_date", pos 3) ∷ []

-- `DEFAULT_FUZZY_ALGORITHMS`
unfoldable pub default_fuzzy_algorithms : List (String × String)
default_fuzzy_algorithms =
    ("debtor_name", "token_set_ratio")
    ∷ ("creditor_name", "token_set_ratio")
    ∷ ("remittance_reference", "token_sort_ratio")
    ∷ ("external_reference", "token_sort_ratio")
    ∷ []

module _ (n : Numbers) where
  open n use {Float}

  -- `DEFAULT_FIELD_WEIGHTS`
  unfoldable pub default_field_weights : List (String × Float)
  default_field_weights =
      ("transaction_id", n.float 30)
      ∷ ("end_to_end_id", n.float 25)
      ∷ ("debtor_account", n.float 20)
      ∷ ("creditor_account", n.float 20)
      ∷ ("amount", n.float 15)
      ∷ ("currency", n.float 10)
      ∷ ("remittance_reference", n.float 15)
      ∷ ("external_reference", n.float 10)
      ∷ ("debtor_name", n.float 10)
      ∷ ("creditor_name", n.float 10)
      ∷ ("booking_date", n.float 5)
      ∷ ("value_date", n.float 5)
      ∷ ("debtor_agent", n.float 5)
      ∷ ("creditor_agent", n.float 5)
      ∷ ("country", n.float 5)
      ∷ []

  -- `DEFAULT_THRESHOLDS`
  unfoldable pub default_thresholds : List (String × Float)
  default_thresholds =
      ("matched", n.float 85) ∷ ("possible_match", n.float 60) ∷ ("review", n.float 40) ∷ []

  -- The name and the state of the policy are not read when a pair is compared.
  unfoldable pub default_policy : ℕ → MatchingPolicy n
  default_policy version = record {
    version = version;
    field_weights = default_field_weights;
    thresholds = default_thresholds;
    date_tolerances = default_date_tolerances;
    amount_tolerances = [];
    critical_fields = default_critical_fields;
    fuzzy_algorithms = default_fuzzy_algorithms;
  }

-- The fields on which a payment must not differ: who pays whom, how much, and under which number.
unfoldable pub is_guarded : Field → Bool
is_guarded Field.currency = true
is_guarded Field.amount = true
is_guarded Field.transaction_id = true
is_guarded Field.debtor_account = true
is_guarded Field.creditor_account = true
is_guarded _ = false

is_critical-default_policy :
    (n : Numbers) (version : ℕ) (f : Field)
    → is_critical n (default_policy n version) f ≡ is_guarded f
unfolding is_critical default_policy default_critical_fields is_guarded
is_critical-default_policy n version Field.transaction_id = refl
is_critical-default_policy n version _ = refl

-- Under the default policy, two records that differ in the currency, the amount, the transaction
-- identifier or one of the accounts are neither a match nor a possible match.
pub default_policy-guarded :
    (n : Numbers) (u : Unicode) (version : ℕ) (a b : MatchRecord n) (f : Field)
    → is_guarded f ≡ true
    → is_mismatch (compared n u a b (default_policy n version) f).status ≡ true
    → is_match (evaluate_pair n u a b (default_policy n version)).classification ≡ false
default_policy-guarded n u version a b f guarded differs =
    evaluate_pair-critical n u a b (default_policy n version) f
      (is_critical-default_policy n version f ∙ guarded) differs
