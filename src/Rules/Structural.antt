-- ===== src/Rules/Structural.antt =====
-- packages/rules_engine/rules/structural_rules.py
use payment_ops.Prelude.{
  String, Bool, true, false, not, ◌||◌, Option, none, some, List, [], ◌∷◌, ◌++◌, codes, truthy,
  if◌then◌else◌,
}
use payment_ops.Prelude.Int.{nonpositive}
use payment_ops.Domain.Payment.{MonetaryAmount, Account, FinancialInstitution, PaymentTransaction}
use payment_ops.Rules.{info, warning, error, RuleFinding, Rule, Tag, finding, show_path, rule}

-- One finding on a part of the transaction, with one line of evidence.
abbrev report : Tag → PaymentTransaction → String → String → String → List RuleFinding
report tag tx part message evidence =
    finding tag tx (show_path tx.source_path ++ codes part) message (codes evidence ∷ []) none ∷ []

abbrev instruction_id_tag : Tag
instruction_id_tag = record { rule_id = "ISO-001"; severity = warning }

unfoldable pub check_instruction_id : PaymentTransaction → List RuleFinding
check_instruction_id tx =
    if not (truthy tx.instruction_id)
    then report instruction_id_tag tx "/PmtId" "Payment instruction ID (InstrId) is missing"
        "PmtId/InstrId is absent"
    else []

abbrev amount_tag : Tag
amount_tag = record { rule_id = "ISO-002"; severity = error }

abbrev pub lacks_amount : Option MonetaryAmount → Bool
lacks_amount none = true
lacks_amount (some m) = nonpositive m.amount_minor

unfoldable pub check_amount : PaymentTransaction → List RuleFinding
check_amount tx =
    if lacks_amount tx.amount
    then report amount_tag tx "/Amt" "Amount is missing or non-positive"
        "Amt/InstdAmt is absent or zero"
    else []

abbrev end_to_end_id_tag : Tag
end_to_end_id_tag = record { rule_id = "ISO-003"; severity = info }

unfoldable pub check_end_to_end_id : PaymentTransaction → List RuleFinding
check_end_to_end_id tx =
    if not (truthy tx.end_to_end_id)
    then report end_to_end_id_tag tx "/PmtId" "End-to-end ID (EndToEndId) is missing"
        "PmtId/EndToEndId is absent"
    else []

-- `agent and not agent.bic`
abbrev pub lacks_bic : Option FinancialInstitution → Bool
lacks_bic none = false
lacks_bic (some agent) = not (truthy agent.bic)

abbrev debtor_agent_tag : Tag
debtor_agent_tag = record { rule_id = "SEM-001"; severity = warning }

unfoldable pub check_debtor_agent : PaymentTransaction → List RuleFinding
check_debtor_agent tx =
    if lacks_bic tx.debtor_agent
    then report debtor_agent_tag tx "/DbtrAgt" "Debtor agent BIC is missing"
        "DbtrAgt/FinInstnId/BICFI is absent"
    else []

abbrev creditor_agent_tag : Tag
creditor_agent_tag = record { rule_id = "SEM-002"; severity = warning }

unfoldable pub check_creditor_agent : PaymentTransaction → List RuleFinding
check_creditor_agent tx =
    if lacks_bic tx.creditor_agent
    then report creditor_agent_tag tx "/CdtrAgt" "Creditor agent BIC is missing"
        "CdtrAgt/FinInstnId/BICFI is absent"
    else []

abbrev pub lacks_identification : Option Account → Bool
lacks_identification none = false
lacks_identification (some account) =
    not (truthy account.iban || truthy account.other_identification)

abbrev creditor_account_tag : Tag
creditor_account_tag = record { rule_id = "SEM-003"; severity = warning }

unfoldable pub check_creditor_account : PaymentTransaction → List RuleFinding
check_creditor_account tx =
    if lacks_identification tx.creditor_account
    then report creditor_account_tag tx "/CdtrAcct" "Creditor account identification missing"
        "CdtrAcct/Id is empty"
    else []

abbrev iso : String
iso = "ISO / structural"

abbrev semantic : String
semantic = "Basic semantic consistency"

abbrev pub missing_instruction_id : Rule
missing_instruction_id = rule instruction_id_tag "Instruction ID missing" iso check_instruction_id

abbrev pub missing_amount : Rule
missing_amount = rule amount_tag "Amount missing" iso check_amount

abbrev pub missing_end_to_end_id : Rule
missing_end_to_end_id = rule end_to_end_id_tag "End-to-end ID missing" iso check_end_to_end_id

abbrev pub missing_debtor_agent_bic : Rule
missing_debtor_agent_bic =
    rule debtor_agent_tag "Debtor agent BIC missing" semantic check_debtor_agent

abbrev pub missing_creditor_agent_bic : Rule
missing_creditor_agent_bic =
    rule creditor_agent_tag "Creditor agent BIC missing" semantic check_creditor_agent

abbrev pub missing_creditor_account : Rule
missing_creditor_account =
    rule creditor_account_tag "Creditor account missing" semantic check_creditor_account
