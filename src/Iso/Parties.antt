-- ===== src/Iso/Parties.antt =====
-- packages/iso_engine/parties.py: parties, accounts, agents, addresses and remittance information.
use mathlib.Core.Option
use payment_ops.Prelude.{Option, none, some, List, [], ◌∷◌, ◌++◌, String, Text, codes, or_else}
use payment_ops.Prelude.Int.{ℤ, pos}
use payment_ops.Domain.Payment.{
  Account, FinancialInstitution, MonetaryAmount, new_amount, Party, PostalAddress,
  RemittanceInformation,
}
use payment_ops.Mapping.Fresh.{new_address, new_account, new_agent, new_party}
use payment_ops.Repair.{get_field}
use payment_ops.Xml.{Node, attributes_of, child, children, text, texts, child_text, attribute}
use payment_ops.Iso.{Formats}

abbrev pub or_zero : Option ℤ → ℤ
or_zero none = pos 0
or_zero (some i) = i

-- `el.get("Ccy") or "EUR"`
unfoldable pub currency_of : Node → Text
currency_of n = elim (or_else (attribute (codes "Ccy") (attributes_of n)) none) [
  | none ↦ codes "EUR"
  | some c ↦ c
]

-- An element without a value has no amount; `none` is the `ValidationError` of its currency.
unfoldable pub map_amount : Formats → Option Node → Option (Option MonetaryAmount)
map_amount f none = some none
map_amount f (some n) = elim (text (some n)) [
  | none ↦ some none
  | some value ↦
      Option.map (λ a. some a) (new_amount (or_zero (f.decimal_cents value)) (currency_of n))
]

-- The address fields that are there, by their element names.
unfoldable pub fields_of : Option Node → List String → List (String × Text)
fields_of el [] = []
fields_of el (name ∷ names) =
    let rest = fields_of el names in
    elim (child_text el (codes name)) [ none ↦ rest | some value ↦ (name, value) ∷ rest ]

abbrev pub address_fields : List String
address_fields = "StrtNm" ∷ "BldgNb" ∷ "PstCd" ∷ "TwnNm" ∷ "Ctry" ∷ []

abbrev pub address_of : List (String × Text) → List Text → Text → PostalAddress
address_of fields lines path = record new_address {
  street_name = get_field "StrtNm" fields;
  building_number = get_field "BldgNb" fields;
  postcode = get_field "PstCd" fields;
  town_name = get_field "TwnNm" fields;
  country = get_field "Ctry" fields;
  address_lines = lines;
  source_path = some path;
  original_fields = fields;
}

unfoldable pub map_address : Option Node → Text → Option PostalAddress
map_address none path = none
map_address (some n) path = some (
    address_of (fields_of (some n) address_fields) (texts (children (some n) (codes "AdrLine")))
      path)

unfoldable pub map_party : Option Node → Text → Option Party
map_party none path = none
map_party (some n) path = some (record new_party {
  name = child_text (some n) (codes "Nm");
  postal_address = map_address (child (some n) (codes "PstlAdr")) (path ++ codes "/PstlAdr");
  source_path = some path;
})

unfoldable pub map_account : Option Node → Text → Option Account
map_account none path = none
map_account (some n) path =
    let id_el = child (some n) (codes "Id") in
    some (record new_account {
      iban = child_text id_el (codes "IBAN");
      other_identification = child_text (child id_el (codes "Othr")) (codes "Id");
      name = child_text (some n) (codes "Nm");
      source_path = some path;
    })

unfoldable pub map_agent : Option Node → Text → Option FinancialInstitution
map_agent none path = none
map_agent (some n) path =
    let fi = child (some n) (codes "FinInstnId") in
    some (record new_agent {
      bic = child_text fi (codes "BICFI");
      clearing_system_member = child_text (child fi (codes "ClrSysMmbId")) (codes "MmbId");
      name = child_text fi (codes "Nm");
      postal_address =
          map_address (child fi (codes "PstlAdr")) (path ++ codes "/FinInstnId/PstlAdr");
      source_path = some path;
    })

unfoldable pub map_remittance : Option Node → Text → Option RemittanceInformation
map_remittance none path = none
map_remittance (some n) path = some (record {
  unstructured = texts (children (some n) (codes "Ustrd"));
  reference = child_text (child (some n) (codes "Strd")) (codes "CdtrRefInf");
  source_path = some path;
})
