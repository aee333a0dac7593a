-- ===== src/Rules/Tests.antt =====
-- Runs of the rules engine on a message with two addresses, and the theorems on them.
use payment_ops.Prelude.{◌≡◌, true, some, [], ◌∷◌, codes}
use payment_ops.Domain.Payment.{PostalAddress, PaymentTransaction}
use payment_ops.Domain.Samples.{blank_address, party, transaction, message}
use payment_ops.Rules.{evaluate, blocking_findings}
use payment_ops.Rules.Address.{addresses}
use payment_ops.Rules.Default.{address_ruleset, any_address, is_stopped, evaluate-blocking}

abbrev hybrid : PostalAddress
hybrid = record blank_address {
  country = some (codes "DE");
  address_lines = codes "Hauptstrasse 1" ∷ [];
}

abbrev unstructured : PostalAddress
unstructured = record blank_address { address_lines = codes "1 rue de Rivoli, Paris" ∷ [] }

-- The debtor's address has a country, the creditor's has none.
abbrev payment : PaymentTransaction
payment = transaction (some (party hybrid)) (some (party unstructured))

evaluate-blocking_example : blocking_findings (evaluate address_ruleset (message payment)) ≡ true
unfolding is_stopped any_address addresses
evaluate-blocking_example = evaluate-blocking (message payment)
