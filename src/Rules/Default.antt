-- ===== src/Rules/Default.antt =====
-- The address ruleset of packages/rules_engine/rules/__init__.py, and what stops a payment.
use payment_ops.Prelude.{
  ℕ, ◌+◌, ◌≡◌, refl, ◌∙◌, String, Bool, true, false, not, ◌&&◌, ◌||◌, Option, List, [], ◌∷◌, ◌++◌,
  Text, any, any-append, or-false, or_assoc, nonempty, length, arith, if◌then◌else◌,
}
use payment_ops.Domain.Payment.{PostalAddress, PaymentTransaction, PaymentMessage}
use payment_ops.Rules.{
  Severity, error, critical, RuleFinding, Rule, Tag, finding, evaluate_rules, evaluate_all,
  evaluate, is_blocking, blocking_findings,
}
use payment_ops.Rules.Structural.{
  lacks_amount, check_instruction_id, check_amount, check_end_to_end_id, check_debtor_agent,
  check_creditor_agent, check_creditor_account, missing_instruction_id, missing_amount,
  missing_end_to_end_id, missing_debtor_agent_bic, missing_creditor_agent_bic,
  missing_creditor_account,
}
use payment_ops.Rules.Address.{
  addresses, has_structured, on_addresses, lacks_country, has_invalid_country, check_town,
  check_country, check_country_code, check_unstructured, check_hybrid, town_missing,
  country_missing, invalid_country_code, unstructured_address, hybrid_address,
}

-- `ADDRESS_RULESET`
unfoldable pub address_ruleset : List Rule
address_ruleset =
    missing_instruction_id ∷ missing_amount ∷ missing_end_to_end_id ∷ missing_debtor_agent_bic
    ∷ missing_creditor_agent_bic ∷ missing_creditor_account ∷ town_missing ∷ country_missing
    ∷ invalid_country_code ∷ unstructured_address ∷ hybrid_address ∷ []

-- Whether some address of the transaction meets a test.
unfoldable pub any_address : (PostalAddress → Bool) → PaymentTransaction → Bool
any_address test tx = any (λ (pair : String × PostalAddress). test pair.1) (addresses tx)

abbrev blocks : Severity → Bool
blocks error = true
blocks critical = true
blocks _ = false

blocking_findings-append :
    (fs gs : List RuleFinding)
    → blocking_findings (fs ++ gs) ≡ (blocking_findings fs || blocking_findings gs)
unfolding blocking_findings
blocking_findings-append fs gs = any-append is_blocking fs gs

blocking_findings-nil : blocking_findings [] ≡ false
unfolding blocking_findings
blocking_findings-nil = refl

blocking_findings-on_addresses :
    (tag : Tag) (test : PostalAddress → Bool) (message : String)
    (evidence : String → PostalAddress → Text) (action : Option String) (tx : PaymentTransaction)
    (pairs : List (String × PostalAddress))
    → blocking_findings (on_addresses tag test message evidence action tx pairs)
      ≡ (blocks tag.severity && any (λ (pair : String × PostalAddress). test pair.1) pairs)
unfolding blocking_findings on_addresses finding
blocking_findings-on_addresses tag test message evidence action tx [] = ground arith
blocking_findings-on_addresses tag test message evidence action tx ((label, a) ∷ rest) =
    ground (arith, blocking_findings-on_addresses tag test message evidence action tx rest)

module _ (tx : PaymentTransaction) where
  structural_quiet :
      (blocking_findings (check_instruction_id tx) ≡ false)
      × (blocking_findings (check_end_to_end_id tx) ≡ false)
      × (blocking_findings (check_debtor_agent tx) ≡ false)
      × (blocking_findings (check_creditor_agent tx) ≡ false)
      × (blocking_findings (check_creditor_account tx) ≡ false)
  unfolding blocking_findings finding check_instruction_id check_end_to_end_id check_debtor_agent
      check_creditor_agent check_creditor_account
  structural_quiet = (ground arith, ground arith, ground arith, ground arith, ground arith)

  blocking_findings-check_amount : blocking_findings (check_amount tx) ≡ lacks_amount tx.amount
  unfolding blocking_findings finding check_amount
  blocking_findings-check_amount = ground arith

  -- A transaction is stopped exactly if its amount is missing or not positive, an address has no
  -- country, or an address has a country that is not a valid code; the other eight rules only warn.
  pub blocking_findings-address_ruleset : blocking_findings (evaluate_rules address_ruleset tx) ≡ (
      lacks_amount tx.amount || any_address lacks_country tx || any_address has_invalid_country tx)
  unfolding evaluate_rules address_ruleset any_address check_town check_country check_country_code
      check_unstructured check_hybrid
  blocking_findings-address_ruleset = simp (
    blocking_findings-append, blocking_findings-nil, blocking_findings-on_addresses,
    blocking_findings-check_amount, structural_quiet.0, structural_quiet.1, structural_quiet.2,
    structural_quiet.3, structural_quiet.4, or-false, or_assoc,
  )

blocking_findings-evaluate_all :
    (rules : List Rule) (txs : List PaymentTransaction)
    → blocking_findings (evaluate_all rules txs)
      ≡ any (λ tx. blocking_findings (evaluate_rules rules tx)) txs
unfolding evaluate_all
blocking_findings-evaluate_all rules [] = blocking_findings-nil
blocking_findings-evaluate_all rules (tx ∷ txs) =
    rw (blocking_findings-append, blocking_findings-evaluate_all rules txs) refl

-- A transaction that the ruleset stops.
unfoldable pub is_stopped : PaymentTransaction → Bool
is_stopped tx =
    lacks_amount tx.amount || any_address lacks_country tx || any_address has_invalid_country tx

any_ext :
    (p q : PaymentTransaction → Bool) (txs : List PaymentTransaction)
    → ((tx : PaymentTransaction) → p tx ≡ q tx)
    → any p txs ≡ any q txs
any_ext p q [] h = refl
any_ext p q (tx ∷ txs) h = ground (arith, h tx, any_ext p q txs h)

-- The engine with the address ruleset has a blocking finding on a message exactly if one of its
-- transactions has no positive amount, or an address without a valid country.
pub evaluate-blocking :
    (message : PaymentMessage)
    → blocking_findings (evaluate address_ruleset message) ≡ any is_stopped message.transactions
unfolding evaluate is_stopped
evaluate-blocking message =
    blocking_findings-evaluate_all address_ruleset message.transactions
    ∙ any_ext _ _ message.transactions blocking_findings-address_ruleset

-- The number of the members that meet a test.
unfoldable pub count {ℓ} : {A : Type ℓ} → (A → Bool) → List A → ℕ
count p [] = 0
count p (x ∷ xs) = (if p x then 1 else 0) + count p xs

length-on_addresses :
    (tag : Tag) (test : PostalAddress → Bool) (message : String)
    (evidence : String → PostalAddress → Text) (action : Option String) (tx : PaymentTransaction)
    (pairs : List (String × PostalAddress))
    → length (on_addresses tag test message evidence action tx pairs)
      ≡ count (λ (pair : String × PostalAddress). test pair.1) pairs
unfolding on_addresses count
length-on_addresses tag test message evidence action tx [] = refl
length-on_addresses tag test message evidence action tx ((label, a) ∷ rest) =
    ground (arith, length-on_addresses tag test message evidence action tx rest)

count_split :
    (p q r : String × PostalAddress → Bool) (pairs : List (String × PostalAddress))
    → ((x : String × PostalAddress) → (p x ≡ (q x && r x)))
    → count p pairs + count (λ x. not (q x) && r x) pairs ≡ count r pairs
unfolding count
count_split p q r [] h = refl
count_split p q r (x ∷ pairs) h = ground (arith, h x, count_split p q r pairs h)

-- The rules on unstructured and on hybrid addresses together report as many findings on a
-- transaction as it has addresses with address lines.
pub check_unstructured-check_hybrid :
    (tx : PaymentTransaction)
    → length (check_hybrid tx) + length (check_unstructured tx)
      ≡ count (λ (pair : String × PostalAddress). nonempty pair.1.address_lines) (addresses tx)
unfolding check_unstructured check_hybrid
check_unstructured-check_hybrid tx = simp length-on_addresses (
    count_split _ (λ pair. has_structured pair.1) (λ pair. nonempty pair.1.address_lines)
      (addresses tx) (λ pair. refl))
