-- ===== src/Iso/Paths/Placed.antt =====
-- packages/iso_engine/parties.py: the addresses that are read below an element have the path of an
-- element.
use mathlib.Core.List.{append_assoc}
use mathlib.Core.Path.{subst}
use payment_ops.Prelude.{◌≡◌, refl, Option, none, some, ◌∷◌, ◌++◌, Text, codes}
use payment_ops.Unicode.{Unicode, split_on, add_char}
use payment_ops.Domain.Payment.{PostalAddress}
use payment_ops.Rules.Address.{party_address, agent_address}
use payment_ops.Xml.{Node, child, before_first, after_first}
use payment_ops.Repair.{segments, drop_empty}
use payment_ops.Repair.Rebuild.{index_of}
use payment_ops.Repair.Rebuild.Navigate.{done, step}
use payment_ops.Iso.Parties.{map_address, map_party, map_agent}
use payment_ops.Iso.Paths.{At, IsStep, At-child}

-- The names of the elements that the adapter descends to.
pub data Name : Text → Type 0 where
  postal_address : Name (codes "PstlAdr")
  institution : Name (codes "FinInstnId")
  transfer : Name (codes "FIToFICstmrCdtTrf")
  debtor : Name (codes "Dbtr")
  creditor : Name (codes "Cdtr")
  debtor_agent : Name (codes "DbtrAgt")
  creditor_agent : Name (codes "CdtrAgt")

module _ (u : Unicode) (root : Node) where
  pub IsStep-Name : {name : Text} → Name name → IsStep u root name name 0
  unfolding segments drop_empty split_on add_char before_first index_of after_first
  IsStep-Name postal_address = (refl, step refl refl done)
  IsStep-Name institution = (refl, step refl refl done)
  IsStep-Name transfer = (refl, step refl refl done)
  IsStep-Name debtor = (refl, step refl refl done)
  IsStep-Name creditor = (refl, step refl refl done)
  IsStep-Name debtor_agent = (refl, step refl refl done)
  IsStep-Name creditor_agent = (refl, step refl refl done)

  -- An address that is there has the path of an element of the document.
  abbrev pub IsPlaced : Option PostalAddress → Type 0
  IsPlaced none = Unit
  IsPlaced (some a) = (path : Text) × (n : Node) × (a.source_path ≡ some path) × At u root path n

  -- The path leads to the element, if there is one.
  abbrev pub LeadsTo : Text → Option Node → Type 0
  LeadsTo path none = Unit
  LeadsTo path (some n) = At u root path n

  pub LeadsTo-child :
      (path name : Text) (el : Option Node)
      → IsStep u root name name 0
      → LeadsTo path el
      → LeadsTo (path ++ b'/' ∷ name) (child el name)
  LeadsTo-child path name none is h = tt
  LeadsTo-child path name (some n) is h = leads (child (some n) name) refl
    where
      leads : (o : Option Node) → child (some n) name ≡ o → LeadsTo (path ++ b'/' ∷ name) o
      leads none e = tt
      leads (some c) e = At-child u root path name n c is h e

  map_address-IsPlaced :
      (el : Option Node) (path : Text) → LeadsTo path el → IsPlaced (map_address el path)
  unfolding map_address
  map_address-IsPlaced none path h = tt
  map_address-IsPlaced (some n) path h = (path, n, refl, h)

  pub map_party-IsPlaced :
      (el : Option Node) (path : Text)
      → LeadsTo path el
      → IsPlaced (party_address (map_party el path))
  unfolding map_party
  map_party-IsPlaced none path h = tt
  map_party-IsPlaced (some n) path h =
      map_address-IsPlaced (child (some n) (codes "PstlAdr")) (path ++ codes "/PstlAdr")
        (LeadsTo-child path (codes "PstlAdr") (some n) (IsStep-Name postal_address) h)

  pub map_agent-IsPlaced :
      (el : Option Node) (path : Text)
      → LeadsTo path el
      → IsPlaced (agent_address (map_agent el path))
  unfolding map_agent
  map_agent-IsPlaced none path h = tt
  map_agent-IsPlaced (some n) path h =
      map_address-IsPlaced address (path ++ codes "/FinInstnId/PstlAdr") (
        subst (λ p. LeadsTo p address) (append_assoc path (codes "/FinInstnId") (codes "/PstlAdr"))
          (LeadsTo-child (path ++ codes "/FinInstnId") (codes "PstlAdr")
            (child (some n) (codes "FinInstnId")) (IsStep-Name postal_address)
            (LeadsTo-child path (codes "FinInstnId") (some n) (IsStep-Name institution) h)))
    where
      address : Option Node
      address = child (child (some n) (codes "FinInstnId")) (codes "PstlAdr")
