-- ===== src/Mapping/Unrepaired.antt =====
-- packages/mapping_engine/mapper.py together with packages/repair_engine/generator.py: what becomes
-- of the changes that are proposed for a mapped message.
use payment_ops.Prelude.{
  ℕ, zero, suc, ◌+◌, ◌≤◌, ◌≡◌, refl, sym, ap, ◌∙◌, String, Bool, true, false, not, ◌&&◌, Option,
  none, some, List, [], ◌∷◌, ◌++◌, Text, codes, All, All-append, Bool-cases, inl, inr, arith,
  append_assoc, OnSome, nonempty, truthy, option_text_eq,
}
use mathlib.Core.Path.{subst}
use payment_ops.Unicode.{Unicode}
use payment_ops.Domain.Payment.{PostalAddress, Party, FinancialInstitution, PaymentTransaction}
use payment_ops.Rules.{Rule}
use payment_ops.Rules.Address.{addresses, labelled, party_address, agent_address}
use payment_ops.Matching.Numbers.{Numbers}
use payment_ops.Repair.{
  DiffEntry, Analysis, propose, propose_at, propose_address, propose_addresses, propose_changes,
  generate_candidate, model_candidate,
}
use payment_ops.Repair.Mapped.{
  lacks, MappedTail, debtor_country, debtor_town, creditor_country, creditor_town, IsMapped,
}
use payment_ops.Repair.Candidate.{generate_candidate-mapped}
use payment_ops.Mapping.{MappingDefinition, MappingResult, Library}
use payment_ops.Mapping.Fresh.{increment, carried, show_index, prefix_at}
use payment_ops.Mapping.Mapper.{Record, map_to_canonical}
use payment_ops.Mapping.Mapper.Paths.{
  HasPath, IsPathed, PartyAt, AgentBare, IsPlaced, ArePlaced, HasPlaces, map_to_canonical-HasPlaces,
}

-- Digits, and what else stands behind the slash.
abbrev AreDigits : Text → Type 0
AreDigits s = All (λ c. 48 ≤ c) s

increment-AreDigits : (s : Text) → AreDigits s → AreDigits (increment s).1
unfolding increment
increment-AreDigits [] h = tt
increment-AreDigits (d ∷ ds) h = ground (arith, h, increment-AreDigits ds h.1)

carried-AreDigits : (p : Bool × Text) → AreDigits p.1 → AreDigits (carried p)
carried-AreDigits (true, s) h = (omega arith, h)
carried-AreDigits (false, s) h = h

show_index-AreDigits : (i : ℕ) → AreDigits (show_index i)
unfolding show_index
show_index-AreDigits zero = (omega arith, tt)
show_index-AreDigits (suc i) =
    carried-AreDigits (increment (show_index i))
      (increment-AreDigits (show_index i) (show_index-AreDigits i))

lacks-digits :
    (s rest : Text) → AreDigits s → lacks b'/' rest ≡ true → lacks b'/' (s ++ rest) ≡ true
unfolding lacks
lacks-digits [] rest h e = e
lacks-digits (c ∷ s) rest h e = ground (arith, h.0, lacks-digits s rest h.1 e)

lacks-prefix_at : (i : ℕ) → lacks b'/' (prefix_at i) ≡ true
unfolding prefix_at lacks
lacks-prefix_at i = lacks-digits (show_index i) (codes "]") (show_index-AreDigits i) refl

-- A change to an address that the mapper placed.
IsMapped-path :
    (i : ℕ) (party : Text) (field : String) (change : DiffEntry)
    → MappedTail (party ++ codes field)
    → change.path ≡ (prefix_at i ++ b'/' ∷ party) ++ codes field
    → IsMapped change
unfolding prefix_at
IsMapped-path i party field change tail e = record {
  head = b't';
  piece = codes "ransactions[" ++ show_index i ++ codes "]";
  tail = party ++ codes field;
  one_segment = lacks-prefix_at i;
  path = e ∙ append_assoc (prefix_at i) (b'/' ∷ party) (codes field);
  mapped = tail;
}

propose-IsMapped :
    (i : ℕ) (party : Text) (field : String) (raw suggestion : Option Text)
    → MappedTail (party ++ codes field)
    → All IsMapped (propose (prefix_at i ++ b'/' ∷ party) field raw suggestion)
unfolding propose
propose-IsMapped i party field raw suggestion tail =
    elim (Bool-cases (truthy suggestion && not (option_text_eq raw suggestion))) [
      | inl e ↦ rw e (IsMapped-path i party field _ tail refl, tt)
      | inr e ↦ rw e tt
    ]

module _ (analyze : PostalAddress → Analysis) where
  -- One address with the path of a party, or without a path.
  propose_address-IsMapped :
      (i : ℕ) (party : Text) (source_path : Option Text) (a : PostalAddress)
      → MappedTail (party ++ codes "/Ctry")
      → MappedTail (party ++ codes "/TwnNm")
      → HasPath (prefix_at i ++ b'/' ∷ party) source_path
      → All IsMapped (propose_address analyze source_path a)
  unfolding propose_at
  propose_address-IsMapped i party none a country town h = tt
  propose_address-IsMapped i party (some []) a country town h = tt
  propose_address-IsMapped i party (some (c ∷ path)) a country town h = rw h (
      All-append IsMapped (propose (prefix_at i ++ b'/' ∷ party) "/Ctry" _ (analyze a).country_code)
        (propose (prefix_at i ++ b'/' ∷ party) "/TwnNm" _ (analyze a).town_name)
        (propose-IsMapped i party "/Ctry" _ (analyze a).country_code country)
        (propose-IsMapped i party "/TwnNm" _ (analyze a).town_name town))

  propose_place-IsMapped :
      (i : ℕ) (party : Text) (label : String) (o : Option PostalAddress)
      → MappedTail (party ++ codes "/Ctry")
      → MappedTail (party ++ codes "/TwnNm")
      → IsPathed (prefix_at i ++ b'/' ∷ party) o
      → All IsMapped (propose_addresses analyze (labelled label o))
  unfolding propose_addresses
  propose_place-IsMapped i party label none country town h = tt
  propose_place-IsMapped i party label (some a) country town h =
      All-append IsMapped (propose_address analyze a.source_path a) []
        (propose_address-IsMapped i party a.source_path a country town h) tt

  propose_party-IsMapped :
      (i : ℕ) (party : Text) (label : String) (p : Option Party)
      → MappedTail (party ++ codes "/Ctry")
      → MappedTail (party ++ codes "/TwnNm")
      → PartyAt (prefix_at i ++ b'/' ∷ party) p
      → All IsMapped (propose_addresses analyze (labelled label (party_address p)))
  unfolding propose_addresses
  propose_party-IsMapped i party label none country town h = tt
  propose_party-IsMapped i party label (some p) country town h =
      propose_place-IsMapped i party label p.postal_address country town h

  propose_agent-IsMapped :
      (label : String) (o : Option FinancialInstitution)
      → AgentBare o
      → All IsMapped (propose_addresses analyze (labelled label (agent_address o)))
  unfolding propose_addresses
  propose_agent-IsMapped label none h = tt
  propose_agent-IsMapped label (some a) h = rw h tt

  propose_addresses-append :
      (xs ys : List (String × PostalAddress))
      → propose_addresses analyze (xs ++ ys)
        ≡ propose_addresses analyze xs ++ propose_addresses analyze ys
  unfolding propose_addresses
  propose_addresses-append [] ys = refl
  propose_addresses-append (x ∷ xs) ys =
      ap (λ ds. propose_address analyze x.1.source_path x.1 ++ ds) (propose_addresses-append xs ys)
      ∙ sym (
          append_assoc (propose_address analyze x.1.source_path x.1) (propose_addresses analyze xs)
            (propose_addresses analyze ys))

  All-propose_addresses :
      (xs ys : List (String × PostalAddress))
      → All IsMapped (propose_addresses analyze xs)
      → All IsMapped (propose_addresses analyze ys)
      → All IsMapped (propose_addresses analyze (xs ++ ys))
  All-propose_addresses xs ys hx hy =
      rw (propose_addresses-append xs ys)
        (All-append IsMapped (propose_addresses analyze xs) (propose_addresses analyze ys) hx hy)

  propose_addresses-IsMapped :
      (i : ℕ) (tx : PaymentTransaction)
      → IsPlaced (prefix_at i) tx
      → All IsMapped (propose_addresses analyze (addresses tx))
  unfolding addresses
  propose_addresses-IsMapped i tx h =
      All-propose_addresses (labelled "Dbtr" (party_address tx.debtor)) _
        (propose_party-IsMapped i (codes "Dbtr/PstlAdr") "Dbtr" tx.debtor debtor_country debtor_town
          h.0)
        (All-propose_addresses (labelled "Cdtr" (party_address tx.creditor)) _
          (propose_party-IsMapped i (codes "Cdtr/PstlAdr") "Cdtr" tx.creditor creditor_country
            creditor_town h.1)
          (All-propose_addresses (labelled "DbtrAgt" (agent_address tx.debtor_agent)) _
            (propose_agent-IsMapped "DbtrAgt" tx.debtor_agent h.2)
            (propose_agent-IsMapped "CdtrAgt" tx.creditor_agent h.3)))

  propose_changes-IsMapped :
      (i : ℕ) (txs : List PaymentTransaction)
      → ArePlaced i txs
      → All IsMapped (propose_changes analyze txs)
  unfolding propose_changes
  propose_changes-IsMapped i [] h = tt
  propose_changes-IsMapped i (tx ∷ txs) h =
      All-append IsMapped (propose_addresses analyze (addresses tx)) (propose_changes analyze txs)
        (propose_addresses-IsMapped i tx h.0) (propose_changes-IsMapped (i + 1) txs h.1)

module _ (n : Numbers) (l : Library n) (u : Unicode) (analyze : PostalAddress → Analysis)
    (rules : List Rule) where
  -- For every message that the mapper makes, of whatever mapping and source: if changes of its
  -- addresses are proposed, the candidate lists them and is validated on the message as it came,
  -- with none of them applied.
  pub generate_candidate-map_to_canonical :
      (d : MappingDefinition) (source : Record n l u) (result : MappingResult)
      → map_to_canonical n l u d source ≡ some result
      → nonempty (propose_changes analyze result.message.transactions) ≡ true
      → generate_candidate u analyze rules none result.message
        ≡ some (
            model_candidate rules
              (propose_changes analyze result.message.transactions)
              result.message)
  generate_candidate-map_to_canonical d source result e proposed =
      generate_candidate-mapped u analyze rules result.message proposed (
        propose_changes-IsMapped analyze 0 result.message.transactions
          (subst (OnSome HasPlaces) e (map_to_canonical-HasPlaces n l u d source)))
