-- ===== src/Rules.antt =====
-- packages/rules_engine: findings on a transaction, and the engine that collects them. A rule
-- object is a record of its class attributes and its method `evaluate`.
pub mod Structural
pub mod Address
pub mod Declarative
pub mod Default
mod Tests
use payment_ops.Prelude.{
  ℕ, String, Bool, true, false, ◌||◌, Option, none, some, List, [], ◌∷◌, ◌++◌, Text, codes,
  nonempty, if◌then◌else◌, any,
}
use payment_ops.Domain.Payment.{PaymentTransaction, PaymentMessage}

pub data Severity : Type 0 where
  info warning error critical : Severity

pub record RuleFinding : Type 0 where
  pub rule_id : String
  pub ruleset_version : String
  pub severity : Severity
  pub target : Text
  pub message : String
  pub evidence : List Text
  pub suggested_action : Option String

abbrev pub ruleset_version : String
ruleset_version = "cloudnova-address-v1"

pub record Rule : Type 0 where
  pub rule_id : String
  pub name : String
  pub category : String
  pub severity : Severity
  pub version : String
  pub evaluate : PaymentTransaction → List RuleFinding

-- The attributes that a rule's findings carry.
pub record Tag : Type 0 where
  pub rule_id : String
  pub severity : Severity

-- A rule object, from its class attributes.
abbrev pub rule : Tag → String → String → (PaymentTransaction → List RuleFinding) → Rule
rule tag name category evaluate = record {
  rule_id = tag.rule_id;
  name = name;
  category = category;
  severity = tag.severity;
  version = ruleset_version;
  evaluate = evaluate;
}

abbrev path_or_empty : Option Text → Text
path_or_empty none = []
path_or_empty (some path) = path

-- `_finding`; an empty target falls back on the transaction's path.
unfoldable pub finding :
    Tag → PaymentTransaction → Text → String → List Text → Option String → RuleFinding
finding tag tx target message evidence suggested_action = record {
  rule_id = tag.rule_id;
  ruleset_version = ruleset_version;
  severity = tag.severity;
  target = if nonempty target then target else path_or_empty tx.source_path;
  message = message;
  evidence = evidence;
  suggested_action = suggested_action;
}

-- A text or `None` inside an f-string.
abbrev pub show_path : Option Text → Text
show_path none = codes "None"
show_path (some path) = path

unfoldable pub evaluate_rules : List Rule → PaymentTransaction → List RuleFinding
evaluate_rules [] tx = []
evaluate_rules (r ∷ rs) tx = r.evaluate tx ++ evaluate_rules rs tx

unfoldable pub evaluate_all : List Rule → List PaymentTransaction → List RuleFinding
evaluate_all rules [] = []
evaluate_all rules (tx ∷ txs) = evaluate_rules rules tx ++ evaluate_all rules txs

-- `RuleEngine.evaluate`
unfoldable pub evaluate : List Rule → PaymentMessage → List RuleFinding
evaluate rules message = evaluate_all rules message.transactions

-- `_blocking_findings` of packages/repair_engine/generator.py
abbrev pub is_blocking : RuleFinding → Bool
is_blocking f = elim f.severity [ error ↦ true | critical ↦ true | _ ↦ false ]

unfoldable pub blocking_findings : List RuleFinding → Bool
blocking_findings = any is_blocking
