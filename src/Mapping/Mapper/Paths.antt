-- ===== src/Mapping/Mapper/Paths.antt =====
-- The paths of the addresses that the mapper fills in.
use payment_ops.Prelude.{
  ℕ, ◌+◌, ◌≡◌, refl, ◌∙◌, Option, none, some, List, [], ◌∷◌, ◌++◌, Text, codes, arith, OnSome,
  OnSome-bind, OnSome-always,
}
use payment_ops.Unicode.{Unicode}
use payment_ops.Domain.Payment.{
  PostalAddress, Party, FinancialInstitution, PaymentTransaction, MonetaryAmount,
}
use payment_ops.Matching.Numbers.{Numbers}
use payment_ops.Mapping.{
  FieldMapping, MappingDefinition, MappingIssue, MappingResult, Value, Library,
}
use payment_ops.Mapping.Fresh.{prefix_at, new_address, new_party, new_agent, new_transaction}
use payment_ops.Mapping.Targets.{
  or_new, set_address_field, set_address, set_party, set_agent, Part, amount, instruction_id,
  end_to_end_id, transaction_id, debtor, creditor, debtor_account, creditor_account, debtor_agent,
  creditor_agent, remittance, other, part_of, set_amount, set_part, set_segments, set_target,
}
use payment_ops.Mapping.Mapper.{
  Record, Taken, lacking, passed_over, taken, put_taken, map_fields, map_records, map_to_canonical,
  extract_records,
}

-- An address that is absent, has no path, or has this one.
abbrev pub HasPath : Text → Option Text → Type 0
HasPath path none = Unit
HasPath path (some p) = p ≡ path

abbrev pub IsPathed : Text → Option PostalAddress → Type 0
IsPathed path none = Unit
IsPathed path (some a) = HasPath path a.source_path

abbrev pub PartyAt : Text → Option Party → Type 0
PartyAt path none = Unit
PartyAt path (some p) = IsPathed path p.postal_address

abbrev pub AgentBare : Option FinancialInstitution → Type 0
AgentBare none = Unit
AgentBare (some a) = a.postal_address ≡ none

abbrev pub IsPlaced : Text → PaymentTransaction → Type 0
IsPlaced prefix tx =
    PartyAt (prefix ++ codes "/Dbtr/PstlAdr") tx.debtor
    × PartyAt (prefix ++ codes "/Cdtr/PstlAdr") tx.creditor
    × AgentBare tx.debtor_agent
    × AgentBare tx.creditor_agent

set_address_field-source_path :
    (field value : Text) (a : PostalAddress)
    → (set_address_field field value a).source_path ≡ a.source_path
unfolding set_address_field
set_address_field-source_path field value a = ground arith

set_address-HasPath :
    (path : Text) (rest : List Text) (value : Text) (a : PostalAddress)
    → HasPath path a.source_path
    → HasPath path (set_address path rest value a).source_path
unfolding set_address
set_address-HasPath path [] value a h = h
set_address-HasPath path (field ∷ rest) value a h =
    rw (set_address_field-source_path field value (record a { source_path = some path })) refl

or_new-HasPath :
    (path : Text) (o : Option PostalAddress)
    → IsPathed path o
    → HasPath path (or_new new_address o).source_path
or_new-HasPath path none h = tt
or_new-HasPath path (some a) h = h

or_new-IsPathed :
    (path : Text) (o : Option Party)
    → PartyAt path o
    → IsPathed path (or_new new_party o).postal_address
or_new-IsPathed path none h = tt
or_new-IsPathed path (some p) h = h

set_party-IsPathed :
    (path field : Text) (rest : List Text) (value : Text) (p : Party)
    → IsPathed path p.postal_address
    → IsPathed path (set_party path field rest value p).postal_address
unfolding set_party
set_party-IsPathed path field rest value p h = ground (
  arith,
  h,
  set_address-HasPath path rest value (or_new new_address p.postal_address)
      (or_new-HasPath path p.postal_address h),
)

set_agent-postal_address :
    (rest : List Text) (value : Text) (a : FinancialInstitution)
    → (set_agent rest value a).postal_address ≡ a.postal_address
unfolding set_agent
set_agent-postal_address [] value a = refl
set_agent-postal_address (field ∷ rest) value a = ground arith

set_agent-AgentBare :
    (rest : List Text) (value : Text) (o : Option FinancialInstitution)
    → AgentBare o
    → AgentBare (some (set_agent rest value (or_new new_agent o)))
set_agent-AgentBare rest value none h = set_agent-postal_address rest value new_agent
set_agent-AgentBare rest value (some a) h = set_agent-postal_address rest value a ∙ h

-- A transaction and the issues so far.
abbrev IsPlacedState : Text → PaymentTransaction × List MappingIssue → Type 0
IsPlacedState prefix s = IsPlaced prefix s.0

-- Each transaction has its own index.
abbrev pub ArePlaced : ℕ → List PaymentTransaction → Type 0
ArePlaced i [] = Unit
ArePlaced i (tx ∷ txs) = IsPlaced (prefix_at i) tx × ArePlaced (i + 1) txs

abbrev ArePlacedResult : ℕ → List PaymentTransaction × List MappingIssue → Type 0
ArePlacedResult i p = ArePlaced i p.0

abbrev pub HasPlaces : MappingResult → Type 0
HasPlaces result = ArePlaced 0 result.message.transactions

module _ (n : Numbers) (l : Library n) (u : Unicode) where
  -- No part of a transaction gets an address with another path.
  set_part-IsPlaced :
      (prefix : Text) (part : Part) (rest : List Text) (v : Value n) (tx : PaymentTransaction)
      → IsPlaced prefix tx
      → OnSome (IsPlaced prefix) (set_part n l u prefix part rest v tx)
  unfolding set_part
  set_part-IsPlaced prefix amount [] v tx h = h
  set_part-IsPlaced prefix amount (field ∷ rest) v tx h =
      OnSome-bind (λ (a : MonetaryAmount). Unit) (IsPlaced prefix) _ _ (λ a _. h)
        (OnSome-always (set_amount n l u field v _))
  set_part-IsPlaced prefix instruction_id rest v tx h = h
  set_part-IsPlaced prefix end_to_end_id rest v tx h = h
  set_part-IsPlaced prefix transaction_id rest v tx h = h
  set_part-IsPlaced prefix debtor [] v tx h = h
  set_part-IsPlaced prefix debtor (field ∷ rest) v tx h =
      (set_party-IsPathed _ field rest _ _ (or_new-IsPathed _ tx.debtor h.0), h.1, h.2, h.3)
  set_part-IsPlaced prefix creditor [] v tx h = h
  set_part-IsPlaced prefix creditor (field ∷ rest) v tx h =
      (h.0, set_party-IsPathed _ field rest _ _ (or_new-IsPathed _ tx.creditor h.1), h.2, h.3)
  set_part-IsPlaced prefix debtor_account rest v tx h = h
  set_part-IsPlaced prefix creditor_account rest v tx h = h
  set_part-IsPlaced prefix debtor_agent rest v tx h =
      (h.0, h.1, set_agent-AgentBare rest _ tx.debtor_agent h.2, h.3)
  set_part-IsPlaced prefix creditor_agent rest v tx h =
      (h.0, h.1, h.2, set_agent-AgentBare rest _ tx.creditor_agent h.3)
  set_part-IsPlaced prefix remittance rest v tx h = h
  set_part-IsPlaced prefix other rest v tx h = h

  set_segments-IsPlaced :
      (prefix : Text) (segments : List Text) (v : Value n) (tx : PaymentTransaction)
      → IsPlaced prefix tx
      → OnSome (IsPlaced prefix) (set_segments n l u prefix segments v tx)
  unfolding set_segments
  set_segments-IsPlaced prefix [] v tx h = h
  set_segments-IsPlaced prefix (s ∷ rest) v tx h = set_part-IsPlaced prefix (part_of s) rest v tx h

  put_taken-IsPlaced :
      (prefix : Text) (f : FieldMapping) (t : Taken n l u)
      (s : PaymentTransaction × List MappingIssue)
      → IsPlaced prefix s.0
      → OnSome (IsPlacedState prefix) (put_taken n l u prefix f t s)
  unfolding put_taken set_target
  put_taken-IsPlaced prefix f lacking s h = h
  put_taken-IsPlaced prefix f passed_over s h = h
  put_taken-IsPlaced prefix f (taken v) s h =
      OnSome-bind (IsPlaced prefix) (IsPlacedState prefix) _ _ (λ tx placed. placed)
        (set_segments-IsPlaced prefix _ _ s.0 h)

  map_fields-IsPlaced :
      (prefix : Text) (r : Record n l u) (fs : List FieldMapping)
      (s : PaymentTransaction × List MappingIssue)
      → IsPlaced prefix s.0
      → OnSome (IsPlacedState prefix) (map_fields n l u prefix r fs s)
  unfolding map_fields
  map_fields-IsPlaced prefix r [] s h = h
  map_fields-IsPlaced prefix r (f ∷ fs) s h =
      OnSome-bind (IsPlacedState prefix) (IsPlacedState prefix) _ _
        (λ t placed. map_fields-IsPlaced prefix r fs t placed) (put_taken-IsPlaced prefix f _ s h)

  map_records-ArePlaced :
      (fields : List FieldMapping) (i : ℕ) (rs : List (Record n l u)) (issues : List MappingIssue)
      → OnSome (ArePlacedResult i) (map_records n l u fields i rs issues)
  unfolding map_records
  map_records-ArePlaced fields i [] issues = tt
  map_records-ArePlaced fields i (r ∷ rs) issues =
      OnSome-bind (IsPlacedState (prefix_at i)) (ArePlacedResult i) _ _
        (λ s placed.
          OnSome-bind (ArePlacedResult (i + 1)) (ArePlacedResult i) _ _
            (λ behind rest. (placed, rest)) (map_records-ArePlaced fields (i + 1) rs s.1))
        (map_fields-IsPlaced (prefix_at i) r fields (new_transaction, issues) (tt, tt, tt, tt))

  pub map_to_canonical-HasPlaces :
      (d : MappingDefinition) (source : Record n l u)
      → OnSome HasPlaces (map_to_canonical n l u d source)
  unfolding map_to_canonical
  map_to_canonical-HasPlaces d source =
      OnSome-bind (λ (rs : List (Record n l u)). Unit) HasPlaces (extract_records n l u d source) _
        (λ rs _.
          OnSome-bind (ArePlacedResult 0) HasPlaces _ _ (λ mapped placed. placed)
            (map_records-ArePlaced d.fields 0 rs []))
        (OnSome-always (extract_records n l u d source))
