-- ===== src/Repair/Document.antt =====
-- packages/repair_engine/generator.py: the candidate of a message that came as a document. lxml's
-- serialisation and the validation against a schema are parameters.
use mathlib.Core.Option
use mathlib.Core.Option.{some-injective}
use payment_ops.Prelude.{Bool, Option, none, some, List, [], ◌∷◌, Text, ◌>>=◌, map, if◌then◌else◌}
use payment_ops.Unicode.{Unicode}
use payment_ops.Domain.Payment.{PostalAddress, PaymentMessage}
use payment_ops.Rules.{Rule}
use payment_ops.Xml.{Node}
use payment_ops.Iso.{Formats}
use payment_ops.Iso.Pacs008.{map_pacs008_to_canonical}
use payment_ops.Iso.Versions.{Identified, identified, refused, identify_pacs_008}
use payment_ops.Repair.{
  DiffEntry, Analysis, Rebuilt, RepairCandidate, propose_changes, apply_to_message, is_pacs_008,
  xml_candidate, model_candidate, unchanged_candidate,
}
use payment_ops.Repair.Rebuild.{apply_changes}

-- What lxml and the bundled schemas say of a document.
pub record Documents : Type 0 where
  pub serialize : Node → Text
  -- Against the schema of a version.
  pub is_valid : Text → Node → Bool

module _ (u : Unicode) (f : Formats) (docs : Documents) where
  unfoldable pub rebuilt_as : Node → List DiffEntry → Identified → Option Rebuilt
  rebuilt_as root applied (refused error) = none
  rebuilt_as root applied (identified version) =
      map_pacs008_to_canonical f root version >>= λ message. some (record {
        applied = applied;
        xml = docs.serialize root;
        xsd_valid = docs.is_valid version.identifier root;
        message = message;
      })

  -- The candidate document; `none` is an exception.
  unfoldable pub rebuild : Node → List DiffEntry → Option Rebuilt
  rebuild root changes =
      apply_changes u root changes >>= λ done. rebuilt_as done.0 done.1 (identify_pacs_008 done.0)

  -- The candidate for the changes.
  unfoldable pub document_candidate_for :
      List Rule → Node → PaymentMessage → List DiffEntry → Option RepairCandidate
  document_candidate_for rules root message [] = some unchanged_candidate
  document_candidate_for rules root message (c ∷ cs) =
      if is_pacs_008 message.source_format
      then Option.map (xml_candidate rules) (rebuild root (c ∷ cs))
      else Option.map (model_candidate rules (c ∷ cs)) (apply_to_message u (c ∷ cs) message)

  -- `generate_candidate` with a document.
  unfoldable pub generate_document_candidate :
      (PostalAddress → Analysis) → List Rule → Node → PaymentMessage → Option RepairCandidate
  generate_document_candidate analyze rules root message =
      document_candidate_for rules root message (propose_changes analyze message.transactions)
