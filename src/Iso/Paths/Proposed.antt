-- ===== src/Iso/Paths/Proposed.antt =====
-- packages/iso_engine/pacs008/adapter.py together with packages/repair_engine/generator.py: the
-- changes that are proposed for a transaction are changes of leaves in the document.
use mathlib.Core.Option.{some-injective}
use mathlib.Core.Path.{subst}
use payment_ops.Prelude.{
  ℕ, zero, suc, ◌+◌, ◌≡◌, ◌≢◌, refl, sym, ap, ◌∙◌, String, Bool, true, false, ◌&&◌, not, Option,
  none, some, List, [], ◌∷◌, ◌++◌, Text, codes, text_eq, ◌>>=◌, All, All-append, arith, is_some,
  map, Bool-cases, Option-cases, inl, inr, truthy, option_text_eq, OnSome, OnSome-bind, ltb, length,
}
use payment_ops.Unicode.{Unicode, split_on, add_char}
use payment_ops.Domain.Payment.{PostalAddress, MonetaryAmount}
use payment_ops.Rules.Address.{addresses, labelled}
use payment_ops.Xml.{Node, child, local_name, before_first, after_first, contains}
use payment_ops.Repair.{
  DiffEntry, Analysis, segments, drop_empty, propose, propose_at, propose_address,
  propose_addresses,
}
use payment_ops.Repair.Rebuild.{strip_index, index_of, position, postal_address_order}
use payment_ops.Repair.Rebuild.Navigate.{done, step}
use payment_ops.Repair.Rebuild.Changed.{LeafPath, HasParent}
use payment_ops.Iso.{Formats}
use payment_ops.Iso.Pacs008.{transaction_path, transaction_of}
use payment_ops.Iso.Paths.{At, IsStep, segments-append}
use payment_ops.Iso.Paths.Placed.{
  IsStep-Name, debtor, creditor, debtor_agent, creditor_agent, IsPlaced, LeadsTo-child,
  map_party-IsPlaced, map_agent-IsPlaced,
}

-- The leaves that the generator proposes to change.
data Leaf : Text → Type 0 where
  country : Leaf (codes "Ctry")
  town : Leaf (codes "TwnNm")

Leaf-plain : {leaf : Text} → Leaf leaf → contains b'}' leaf ≡ false
Leaf-plain country = refl
Leaf-plain town = refl

Leaf-known :
    {leaf : Text}
    → Leaf leaf
    → ltb (position leaf postal_address_order) (length postal_address_order) ≡ true
unfolding position payment_ops.Prelude.text_eq
Leaf-known country = refl
Leaf-known town = refl

module _ (u : Unicode) (root : Node) where
  -- A change of a leaf below an element of the document.
  abbrev pub IsPlacedPath : Text → Type 0
  IsPlacedPath path = (t : LeafPath u path) × HasParent root t

  abbrev pub IsPlacedChange : DiffEntry → Type 0
  IsPlacedChange c = IsPlacedPath c.path

  -- The leaves that are proposed.
  IsStep-Leaf : {leaf : Text} → Leaf leaf → IsStep u root leaf leaf 0
  unfolding segments drop_empty split_on add_char before_first index_of after_first
  IsStep-Leaf country = (refl, step refl refl done)
  IsStep-Leaf town = (refl, step refl refl done)

  leaf_path :
      (path leaf : Text) (n : Node)
      → Leaf leaf
      → At u root path n
      → LeafPath u (path ++ b'/' ∷ leaf)
  leaf_path path leaf n l a = record {
    head = codes "Document";
    middle = a.below;
    leaf = leaf;
    parent = a.place;
    path_segments =
        segments-append path leaf
        ∙ ap (λ s. s ++ segments leaf) a.path_segments
        ∙ ap (λ s. codes "Document" ∷ a.below ++ s) (IsStep-Leaf l).0;
    spelled = a.spelled;
    leaf_name = (IsStep-Leaf l).1;
    leaf_plain = Leaf-plain l;
    leaf_known = Leaf-known l;
  }

  module _ (document : text_eq (local_name root) (codes "Document") ≡ true) where
    rooted : text_eq (local_name root) (strip_index (codes "Document")) ≡ true
    unfolding before_first
    rooted = document

    Leaf-IsPlaced :
        (path leaf changed : Text) (n : Node)
        → Leaf leaf
        → At u root path n
        → changed ≡ path ++ b'/' ∷ leaf
        → IsPlacedPath changed
    unfolding leaf_path
    Leaf-IsPlaced path leaf changed n l a e =
        subst IsPlacedPath (sym e) (leaf_path path leaf n l a, (rooted, rw a.found refl))

    propose-IsPlaced :
        (base leaf : Text) (field : String) (raw suggestion : Option Text) (n : Node)
        → codes field ≡ b'/' ∷ leaf
        → Leaf leaf
        → At u root base n
        → All IsPlacedChange (propose base field raw suggestion)
    unfolding propose
    propose-IsPlaced base leaf field raw suggestion n f l a =
        elim (Bool-cases (truthy suggestion && not (option_text_eq raw suggestion))) [
          | inl e ↦
              rw e (Leaf-IsPlaced base leaf (base ++ codes field) n l a (ap (λ s. base ++ s) f), tt)
          | inr e ↦ rw e tt
        ]

    module _ (analyze : PostalAddress → Analysis) where
      propose_address-IsPlaced :
          (a : PostalAddress) (source : Option Text) (path : Text) (n : Node)
          → source ≡ some path
          → At u root path n
          → All IsPlacedChange (propose_address analyze source a)
      unfolding propose_at
      propose_address-IsPlaced a none path n e h = cc
      propose_address-IsPlaced a (some []) path n e h = tt
      propose_address-IsPlaced a (some (c ∷ s)) path n e h =
          let located = subst (λ p. At u root p n) (sym (some-injective (c ∷ s) path e)) h in
          All-append IsPlacedChange (propose (c ∷ s) "/Ctry" _ (analyze a).country_code)
            (propose (c ∷ s) "/TwnNm" _ (analyze a).town_name)
            (propose-IsPlaced (c ∷ s) (codes "Ctry") "/Ctry" _ (analyze a).country_code n refl
              country located)
            (propose-IsPlaced (c ∷ s) (codes "TwnNm") "/TwnNm" _ (analyze a).town_name n refl town
              located)

      propose_labelled-IsPlaced :
          (label : String) (o : Option PostalAddress) (rest : List (String × PostalAddress))
          → IsPlaced u root o
          → All IsPlacedChange (propose_addresses analyze rest)
          → All IsPlacedChange (propose_addresses analyze (labelled label o ++ rest))
      unfolding propose_addresses
      propose_labelled-IsPlaced label none rest h r = r
      propose_labelled-IsPlaced label (some a) rest (path, n, e, at) r =
          All-append IsPlacedChange (propose_address analyze a.source_path a)
            (propose_addresses analyze rest) (propose_address-IsPlaced a a.source_path path n e at)
            r

      propose_last-IsPlaced :
          (label : String) (o : Option PostalAddress)
          → IsPlaced u root o
          → All IsPlacedChange (propose_addresses analyze (labelled label o))
      unfolding propose_addresses
      propose_last-IsPlaced label none h = tt
      propose_last-IsPlaced label (some a) (path, n, e, at) =
          All-append IsPlacedChange (propose_address analyze a.source_path a) []
            (propose_address-IsPlaced a a.source_path path n e at) tt

      transaction_of-IsPlaced :
          (n : Node) (path : Text) (amount : Option MonetaryAmount)
          → At u root path n
          → All IsPlacedChange
              (propose_addresses analyze (addresses (transaction_of n path amount)))
      unfolding addresses transaction_of
      transaction_of-IsPlaced n path amount at =
          propose_labelled-IsPlaced "Dbtr" _ _
            (map_party-IsPlaced u root (child (some n) (codes "Dbtr")) (path ++ codes "/Dbtr")
              (LeadsTo-child u root path (codes "Dbtr") (some n) (IsStep-Name u root debtor) at))
            (propose_labelled-IsPlaced "Cdtr" _ _
              (map_party-IsPlaced u root (child (some n) (codes "Cdtr")) (path ++ codes "/Cdtr") (
                LeadsTo-child u root path (codes "Cdtr") (some n) (IsStep-Name u root creditor) at))
              (propose_labelled-IsPlaced "DbtrAgt" _ _
                (map_agent-IsPlaced u root (child (some n) (codes "DbtrAgt"))
                  (path ++ codes "/DbtrAgt")
                  (LeadsTo-child u root path (codes "DbtrAgt") (some n)
                    (IsStep-Name u root debtor_agent) at))
                (propose_last-IsPlaced "CdtrAgt" _ (
                  map_agent-IsPlaced u root (child (some n) (codes "CdtrAgt"))
                    (path ++ codes "/CdtrAgt")
                    (LeadsTo-child u root path (codes "CdtrAgt") (some n)
                      (IsStep-Name u root creditor_agent) at)))))

      pub transaction-IsPlaced :
          (f : Formats) (i : ℕ) (n : Node) (amount : Option (Option MonetaryAmount))
          → At u root (transaction_path i) n
          → OnSome
              (λ tx. All IsPlacedChange (propose_addresses analyze (addresses tx)))
              (amount >>= λ a. some (transaction_of n (transaction_path i) a))
      transaction-IsPlaced f i n none at = tt
      transaction-IsPlaced f i n (some a) at = transaction_of-IsPlaced n (transaction_path i) a at
