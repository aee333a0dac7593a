-- ===== src/Iso/Paths/Applied.antt =====
-- packages/iso_engine/pacs008/adapter.py together with packages/repair_engine: what becomes of the
-- changes that are proposed for the addresses of a document.
use payment_ops.Prelude.{◌≡◌, true, List, [], ◌∷◌, codes, text_eq, All}
use payment_ops.Unicode.{Unicode}
use payment_ops.Domain.Payment.{PostalAddress, PaymentTransaction}
use payment_ops.Rules.Address.{addresses}
use payment_ops.Xml.{Node, local_name}
use payment_ops.Repair.{DiffEntry, Analysis, propose_addresses, propose_changes}
use payment_ops.Repair.Rebuild.Applied.{ArePaths}
use payment_ops.Iso.Paths.Proposed.{IsPlacedChange}

module _ (u : Unicode) (root : Node) where
  module _ (document : text_eq (local_name root) (codes "Document") ≡ true) where
    module _ (analyze : PostalAddress → Analysis) where
      abbrev ProposesPlaced : PaymentTransaction → Type 0
      ProposesPlaced tx = All (IsPlacedChange u root) (propose_addresses analyze (addresses tx))

      abbrev ArePlaced : List PaymentTransaction → Type 0
      ArePlaced txs = All (IsPlacedChange u root) (propose_changes analyze txs)

  paths_of : (changes : List DiffEntry) → All (IsPlacedChange u root) changes → ArePaths u changes
  paths_of [] h = tt
  paths_of (c ∷ cs) h = (h.0.0, paths_of cs h.1)
