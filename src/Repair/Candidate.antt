-- ===== src/Repair/Candidate.antt =====
-- The proposals and the status of `generate_candidate`.
use mathlib.Core.Option
use mathlib.Core.Option.{some-injective}
use mathlib.Core.Path.{subst}
use payment_ops.Prelude.{
  String, ◌≡◌, refl, inl, inr, Bool, true, false, ◌||◌, Option, none, some, List, [], ◌∷◌, Text,
  truthy, option_text_eq, nonempty, arith, All, All-append, if◌then◌else◌, Bool-cases,
}
use payment_ops.Unicode.{Unicode}
use payment_ops.Domain.Payment.{
  CandidateStatus, review_required, PostalAddress, PaymentTransaction, PaymentMessage,
}
use payment_ops.Rules.{Rule, blocking_findings}
use payment_ops.Rules.Address.{addresses}
use payment_ops.Repair.{
  DiffEntry, RepairCandidate, Analysis, Rebuilt, propose, propose_at, propose_address,
  propose_addresses, propose_changes, apply_to_message, xml_candidate, model_candidate,
  unchanged_candidate, candidate_for, generate_candidate, is_pacs_008,
}
use payment_ops.Repair.Mapped.{IsMapped, apply_to_message-mapped}

-- A change to a value that is there and differs from the one before.
abbrev pub IsChange : DiffEntry → Type 0
IsChange d = (truthy d.after ≡ true) × (option_text_eq d.before d.after ≡ false)

propose-IsChange :
    (base : Text) (field : String) (raw suggestion : Option Text)
    → All IsChange (propose base field raw suggestion)
unfolding propose
propose-IsChange base field raw suggestion = ground arith

module _ (analyze : PostalAddress → Analysis) where
  propose_address-IsChange :
      (path : Option Text) (addr : PostalAddress) → All IsChange (propose_address analyze path addr)
  unfolding propose_at
  propose_address-IsChange none addr = tt
  propose_address-IsChange (some []) addr = tt
  propose_address-IsChange (some (c ∷ path)) addr =
      All-append IsChange _ _ (propose-IsChange _ "/Ctry" _ _) (propose-IsChange _ "/TwnNm" _ _)

  propose_addresses-IsChange :
      (pairs : List (String × PostalAddress)) → All IsChange (propose_addresses analyze pairs)
  unfolding propose_addresses
  propose_addresses-IsChange [] = tt
  propose_addresses-IsChange ((label, addr) ∷ rest) =
      All-append IsChange (propose_address analyze addr.source_path addr) _
        (propose_address-IsChange addr.source_path addr) (propose_addresses-IsChange rest)

  -- Whatever the provider answers, every proposed change sets a value that is not empty and is not
  -- the value before.
  pub propose_changes-IsChange :
      (txs : List PaymentTransaction) → All IsChange (propose_changes analyze txs)
  unfolding propose_changes
  propose_changes-IsChange [] = tt
  propose_changes-IsChange (tx ∷ txs) =
      All-append IsChange (propose_addresses analyze (addresses tx)) _
        (propose_addresses-IsChange (addresses tx)) (propose_changes-IsChange txs)

abbrev pub schema_failed : Option Bool → Bool
schema_failed (some false) = true
schema_failed _ = false

-- The status agrees with what the candidate reports: validated exactly if no schema validation
-- failed and no reported finding blocks, and sent to review otherwise.
abbrev pub IsCoherent : RepairCandidate → Type 0
IsCoherent c = c.status ≡ (
    if schema_failed c.xsd_valid || blocking_findings c.rule_findings
    then review_required
    else CandidateStatus.validated)

-- What is returned is coherent.
abbrev ReturnsCoherent : Option RepairCandidate → Type 0
ReturnsCoherent o = (c : RepairCandidate) → o ≡ some c → IsCoherent c

ReturnsCoherent-some : (c : RepairCandidate) → IsCoherent c → ReturnsCoherent (some c)
ReturnsCoherent-some c h c' e = subst IsCoherent (some-injective c c' e) h

module _ (rules : List Rule) where
  model_candidate-IsCoherent :
      (changes : List DiffEntry) (o : Option PaymentMessage)
      → ReturnsCoherent (Option.map (model_candidate rules changes) o)
  unfolding model_candidate
  model_candidate-IsCoherent changes none = λ c e. cc
  model_candidate-IsCoherent changes (some m) =
      ReturnsCoherent-some (model_candidate rules changes m) (ground arith)

  xml_candidate-IsCoherent : (r : Rebuilt) → IsCoherent (xml_candidate rules r)
  unfolding xml_candidate
  xml_candidate-IsCoherent r = ground arith

  candidate_for-IsCoherent :
      (u : Unicode) (document : Option (List DiffEntry → Rebuilt)) (message : PaymentMessage)
      (changes : List DiffEntry)
      → ReturnsCoherent (candidate_for u rules document message changes)
  unfolding candidate_for blocking_findings
  candidate_for-IsCoherent u document message [] = ReturnsCoherent-some unchanged_candidate refl
  candidate_for-IsCoherent u none message (c ∷ cs) =
      model_candidate-IsCoherent (c ∷ cs) (apply_to_message u (c ∷ cs) message)
  candidate_for-IsCoherent u (some rebuild) message (c ∷ cs) =
      elim (Bool-cases (is_pacs_008 message.source_format)) [
        | inl xml ↦ rw xml (ReturnsCoherent-some _ (xml_candidate-IsCoherent (rebuild (c ∷ cs))))
        | inr other ↦
            rw other (model_candidate-IsCoherent (c ∷ cs) (apply_to_message u (c ∷ cs) message))
      ]

-- Every candidate that is generated is coherent: it is never called validated beside a failed
-- schema validation or a blocking finding that it reports, and never sent to review without one.
pub generate_candidate-IsCoherent :
    (u : Unicode) (analyze : PostalAddress → Analysis) (rules : List Rule)
    (document : Option (List DiffEntry → Rebuilt)) (message : PaymentMessage) (c : RepairCandidate)
    → generate_candidate u analyze rules document message ≡ some c
    → IsCoherent c
unfolding generate_candidate
generate_candidate-IsCoherent u analyze rules document message =
    candidate_for-IsCoherent rules u document message (propose_changes analyze message.transactions)

module _ (u : Unicode) (analyze : PostalAddress → Analysis) (rules : List Rule)
    (message : PaymentMessage) where
  -- Without a document, if changes are proposed and all of them are to addresses with the mapper's
  -- paths, the candidate is validated on the message as it came: the changes are listed and none
  -- is applied.
  pub generate_candidate-mapped :
      nonempty (propose_changes analyze message.transactions) ≡ true
      → All IsMapped (propose_changes analyze message.transactions)
      → generate_candidate u analyze rules none message
        ≡ some (model_candidate rules (propose_changes analyze message.transactions) message)
  unfolding generate_candidate
  generate_candidate-mapped = mapped (propose_changes analyze message.transactions)
    where
      mapped :
          (changes : List DiffEntry)
          → nonempty changes ≡ true
          → All IsMapped changes
          → candidate_for u rules none message changes
            ≡ some (model_candidate rules changes message)
      mapped [] h m = cc
      mapped (c ∷ cs) h m =
          unfold candidate_for in rw (apply_to_message-mapped u (c ∷ cs) message m) refl
