-- ===== src/Repair/Tests.antt =====
-- Candidates for a message whose creditor has no country, and the theorems on them.
use payment_ops.Prelude.{refl, none, some, [], ◌∷◌, codes, text_eq, All}
use payment_ops.Unicode.Ascii.{ascii}
use payment_ops.Domain.Payment.{PostalAddress, PaymentTransaction}
use payment_ops.Rules.Address.{addresses}
use payment_ops.Rules.Default.{address_ruleset}
use payment_ops.Domain.Samples.{blank_address, party, transaction, message}
use payment_ops.Repair.{
  RepairCandidate, Analysis, propose_changes, propose_addresses, propose_at, propose, get_field,
  model_candidate,
}
use payment_ops.Repair.Mapped.{IsMapped, lacks, creditor_country}
use payment_ops.Repair.Candidate.{
  IsCoherent, generate_candidate-IsCoherent, generate_candidate-mapped,
}

-- An address as the mapper fills it in.
abbrev address : PostalAddress
address = record blank_address {
  town_name = some (codes "Berlin");
  source_path = some (codes "transactions[0]/Cdtr/PstlAdr");
}

abbrev payment : PaymentTransaction
payment = transaction none (some (party address))

-- A provider that knows the country, and one that knows nothing.
abbrev germany : PostalAddress → Analysis
germany addr = record { country_code = some (codes "DE"); town_name = some (codes "Berlin") }

abbrev candidate : RepairCandidate
candidate =
    model_candidate address_ruleset (propose_changes germany (payment ∷ [])) (message payment)

-- The change of the creditor's country is mapped.
proposed_IsMapped : All IsMapped (propose_changes germany (payment ∷ []))
unfolding propose_changes propose_addresses propose_at propose get_field addresses text_eq lacks
proposed_IsMapped = (
  record {
    head = b't';
    piece = codes "ransactions[0]";
    tail = codes "Cdtr/PstlAdr/Ctry";
    one_segment = refl;
    path = refl;
    mapped = creditor_country;
  },
  tt,
)

generate_candidate-IsCoherent_example : IsCoherent candidate
unfolding propose_changes propose_addresses propose_at propose get_field addresses text_eq
generate_candidate-IsCoherent_example =
    generate_candidate-IsCoherent ascii germany address_ruleset none (message payment) candidate (
      generate_candidate-mapped ascii germany address_ruleset (message payment) refl
        proposed_IsMapped)
