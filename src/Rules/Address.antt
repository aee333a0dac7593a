-- ===== src/Rules/Address.antt =====
-- packages/rules_engine/rules/address_rules.py
use payment_ops.Prelude.{
  String, Bool, false, not, ◌&&◌, ◌||◌, Option, none, some, List, [], ◌∷◌, ◌++◌, Text, codes,
  truthy, is_none, is_some, nonempty, if◌then◌else◌,
}
use payment_ops.Domain.Payment.{PostalAddress, Party, FinancialInstitution, PaymentTransaction}
use payment_ops.Domain.Countries.{is_valid_country_code}
use payment_ops.Rules.{info, warning, error, RuleFinding, Rule, Tag, finding, rule}

abbrev pub party_address : Option Party → Option PostalAddress
party_address none = none
party_address (some p) = p.postal_address

abbrev pub agent_address : Option FinancialInstitution → Option PostalAddress
agent_address none = none
agent_address (some a) = a.postal_address

abbrev pub labelled : String → Option PostalAddress → List (String × PostalAddress)
labelled label none = []
labelled label (some a) = (label, a) ∷ []

-- `_addresses`, which is also `addresses` of packages/repair_engine/generator.py.
unfoldable pub addresses : PaymentTransaction → List (String × PostalAddress)
addresses tx =
    labelled "Dbtr" (party_address tx.debtor)
    ++ (labelled "Cdtr" (party_address tx.creditor)
        ++ (labelled "DbtrAgt" (agent_address tx.debtor_agent)
            ++ labelled "CdtrAgt" (agent_address tx.creditor_agent)))

-- `any(getattr(addr, f) for f in _STRUCTURED_FIELDS)`
unfoldable pub has_structured : PostalAddress → Bool
has_structured a =
    truthy a.street_name
    || truthy a.building_number
    || truthy a.postcode
    || truthy a.town_name
    || truthy a.country

-- The findings of one rule on each address that its test picks.
unfoldable pub on_addresses :
    Tag
    → (PostalAddress → Bool)
    → String
    → (String → PostalAddress → Text)
    → Option String
    → PaymentTransaction
    → List (String × PostalAddress)
    → List RuleFinding
on_addresses tag test message evidence action tx [] = []
on_addresses tag test message evidence action tx ((label, a) ∷ rest) =
    let later = on_addresses tag test message evidence action tx rest in
    if test a
    then finding tag tx (codes label ++ codes "/PstlAdr") message (evidence label a ∷ []) action
      ∷ later
    else later

-- A fixed line of evidence behind the label.
abbrev behind : String → String → PostalAddress → Text
behind line label a = codes label ++ codes line

abbrev pub lacks_town : PostalAddress → Bool
lacks_town a = is_none a.town_name && is_some a.country

abbrev pub lacks_country : PostalAddress → Bool
lacks_country a = is_none a.country

abbrev pub invalid_country : Option Text → Bool
invalid_country none = false
invalid_country (some code) = not (is_valid_country_code code)

abbrev pub has_invalid_country : PostalAddress → Bool
has_invalid_country a = invalid_country a.country

abbrev pub is_unstructured : PostalAddress → Bool
is_unstructured a = not (has_structured a) && nonempty a.address_lines

abbrev pub is_hybrid : PostalAddress → Bool
is_hybrid a = has_structured a && nonempty a.address_lines

abbrev quoted_country : String → PostalAddress → Text
quoted_country label a = codes "Ctry='" ++ (show a.country ++ codes "'")
  where
    show : Option Text → Text
    show none = codes "None"
    show (some code) = code

abbrev town_tag : Tag
town_tag = record { rule_id = "ADR-001"; severity = warning }

unfoldable pub check_town : PaymentTransaction → List RuleFinding
check_town tx =
    on_addresses town_tag lacks_town "Town name is missing" (behind "/PstlAdr/TwnNm is absent")
      (some "Provide TwnNm or derive from address lines") tx (addresses tx)

abbrev country_tag : Tag
country_tag = record { rule_id = "ADR-002"; severity = error }

unfoldable pub check_country : PaymentTransaction → List RuleFinding
check_country tx =
    on_addresses country_tag lacks_country "Country is missing" (behind "/PstlAdr/Ctry is absent")
      (some "Provide ISO 3166-1 alpha-2 Ctry") tx (addresses tx)

abbrev country_code_tag : Tag
country_code_tag = record { rule_id = "ADR-003"; severity = error }

unfoldable pub check_country_code : PaymentTransaction → List RuleFinding
check_country_code tx =
    on_addresses country_code_tag has_invalid_country
      "Country code is not a valid ISO 3166-1 alpha-2 code" quoted_country
      (some "Normalise to ISO alpha-2 code") tx (addresses tx)

abbrev unstructured_tag : Tag
unstructured_tag = record { rule_id = "ADR-004"; severity = warning }

unfoldable pub check_unstructured : PaymentTransaction → List RuleFinding
check_unstructured tx =
    on_addresses unstructured_tag is_unstructured
      "Address is unstructured and requires readiness review"
      (behind "/PstlAdr contains only AdrLine") (some "Structure address from AdrLine") tx
      (addresses tx)

abbrev hybrid_tag : Tag
hybrid_tag = record { rule_id = "ADR-005"; severity = info }

unfoldable pub check_hybrid : PaymentTransaction → List RuleFinding
check_hybrid tx =
    on_addresses hybrid_tag is_hybrid "Hybrid address (structured + AdrLine) requires evaluation"
      (behind "/PstlAdr has both structured fields and AdrLine") none tx (addresses tx)

abbrev readiness : String
readiness = "Address readiness"

abbrev pub town_missing : Rule
town_missing = rule town_tag "Town Name missing" readiness check_town

abbrev pub country_missing : Rule
country_missing = rule country_tag "Country missing" readiness check_country

abbrev pub invalid_country_code : Rule
invalid_country_code =
    rule country_code_tag "Country code invalid" "Country normalization" check_country_code

abbrev pub unstructured_address : Rule
unstructured_address = rule unstructured_tag "Address is unstructured" readiness check_unstructured

abbrev pub hybrid_address : Rule
hybrid_address = rule hybrid_tag "Mixed/hybrid address candidate" readiness check_hybrid
