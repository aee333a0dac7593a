-- ===== src/Rules/Declarative.antt =====
-- packages/rules_engine/declarative.py: what a customer's rule may be, and the engine that puts the
-- organisation's and the profile's rules behind the baseline.
use payment_ops.Prelude.{
  Option, none, some, List, [], ◌∷◌, ◌++◌, String, str_eq, any, if◌then◌else◌,
}
use payment_ops.Rules.{Severity, Rule}

-- `OPERATORS`
unfoldable pub operators : List String
operators =
    "in" ∷ "not_in" ∷ "equals" ∷ "not_equals" ∷ "is_empty" ∷ "not_empty" ∷ "greater_than"
    ∷ "less_than" ∷ "contains" ∷ "starts_with" ∷ []

abbrev pub system_mandatory : String
system_mandatory = "SYSTEM_MANDATORY"

-- The value that a rule compares with is not read by the validation.
pub record RuleConfig : Type 0 where
  pub rule_id : String
  pub field : String
  pub operator : String
  pub severity : Severity
  pub classification : String

pub data ConfigError : Type 0 where
  unsupported_operator : String → ConfigError
  declares_system_mandatory : ConfigError

unfoldable pub validate_rule_config : RuleConfig → List ConfigError
validate_rule_config config =
    (if any (str_eq config.operator) operators
      then []
      else unsupported_operator config.operator ∷ [])
    ++ (if str_eq config.classification system_mandatory
        then declares_system_mandatory ∷ []
        else [])

-- `CompositeRuleEngine.__init__`: `None` is no rules.
abbrev or_empty : Option (List Rule) → List Rule
or_empty none = []
or_empty (some rules) = rules

unfoldable composite : List Rule → Option (List Rule) → Option (List Rule) → List Rule
composite baseline org profile = baseline ++ (or_empty org ++ or_empty profile)
