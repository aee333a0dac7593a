-- ===== src/Mapping/Validator.antt =====
-- packages/mapping_engine/validator.py: what a mapping must be before its profile is published.
pub mod Sound
use payment_ops.Prelude.{
  String, Bool, true, false, not, ◌&&◌, ◌||◌, Option, none, some, List, [], ◌∷◌, ◌++◌, Text, codes,
  text_eq, str_eq, any, all, map, nonempty, truthy, if◌then◌else◌,
}
use payment_ops.Mapping.{
  SourceFormat, json, csv, custom_xml, MappingSeverity, FieldMapping, MappingDefinition,
  MappingIssue,
}
use payment_ops.Mapping.Transforms.{supported_transforms}

-- `_ALLOWED_TARGETS`
unfoldable pub allowed_targets : List String
allowed_targets =
    "instruction_id" ∷ "end_to_end_id" ∷ "transaction_id" ∷ "amount.amount_minor"
    ∷ "amount.currency" ∷ "debtor.name" ∷ "creditor.name" ∷ "debtor.postal_address.street_name"
    ∷ "debtor.postal_address.building_number" ∷ "debtor.postal_address.postcode"
    ∷ "debtor.postal_address.town_name" ∷ "debtor.postal_address.country"
    ∷ "debtor.postal_address.address_lines" ∷ "creditor.postal_address.street_name"
    ∷ "creditor.postal_address.building_number" ∷ "creditor.postal_address.postcode"
    ∷ "creditor.postal_address.town_name" ∷ "creditor.postal_address.country"
    ∷ "creditor.postal_address.address_lines" ∷ "debtor_account.iban" ∷ "debtor_account.name"
    ∷ "debtor_account.other_identification" ∷ "creditor_account.iban" ∷ "creditor_account.name"
    ∷ "debtor_agent.bic" ∷ "debtor_agent.name" ∷ "creditor_agent.bic" ∷ "creditor_agent.name"
    ∷ "remittance.unstructured" ∷ []

pub record MappingValidation : Type 0 where
  pub valid : Bool
  pub errors : List MappingIssue
  pub warnings : List MappingIssue

abbrev is_json : SourceFormat → Bool
is_json json = true
is_json _ = false

abbrev pub is_xml : SourceFormat → Bool
is_xml custom_xml = true
is_xml _ = false

abbrev pub error_at : String → Option Text → List MappingIssue
error_at code path = record { code = code; severity = MappingSeverity.error; path = path } ∷ []

abbrev warning_at : String → Option Text → List MappingIssue
warning_at code path = record { code = code; severity = MappingSeverity.warning; path = path } ∷ []

unfoldable pub is_allowed : Text → Bool
is_allowed target = any (λ t. text_eq (codes t) target) allowed_targets

abbrev pub is_supported : String → Bool
is_supported name = any (str_eq name) supported_transforms

unfoldable pub transform_errors : Text → List String → List MappingIssue
transform_errors target [] = []
transform_errors target (name ∷ names) =
    (if is_supported name then [] else error_at "MAP-006" (some target))
    ++ transform_errors target names

unfoldable pub field_errors : List Text → FieldMapping → List MappingIssue
field_errors seen f =
    (if nonempty f.source then [] else error_at "MAP-003" (some f.target))
    ++ ((if is_allowed f.target then [] else error_at "MAP-004" (some f.target))
        ++ ((if any (text_eq f.target) seen then error_at "MAP-005" (some f.target) else [])
            ++ transform_errors f.target f.transforms))

-- The loop over the fields, with the targets that were seen.
unfoldable pub fields_errors : List Text → List FieldMapping → List MappingIssue
fields_errors seen [] = []
fields_errors seen (f ∷ fs) = field_errors seen f ++ fields_errors (f.target ∷ seen) fs

unfoldable pub definition_errors : MappingDefinition → List MappingIssue
definition_errors d =
    (if nonempty d.fields then [] else error_at "MAP-002" none)
    ++ (if is_xml d.source_format && not (truthy d.record_selector)
        then error_at "MAP-011" none
        else [])

unfoldable pub currency_warnings : List FieldMapping → List MappingIssue
currency_warnings [] = []
currency_warnings (f ∷ fs) =
    (if text_eq f.target (codes "amount.currency") && any (str_eq "parse_decimal") f.transforms
      then warning_at "MAP-007" (some f.target)
      else [])
    ++ currency_warnings fs

unfoldable pub selector_warnings : MappingDefinition → List MappingIssue
selector_warnings d =
    if is_json d.source_format && not (truthy d.record_selector)
    then warning_at "MAP-010" none
    else []

unfoldable pub validate_mapping : MappingDefinition → MappingValidation
validate_mapping d =
    let errors = definition_errors d ++ fields_errors [] d.fields in
    record {
      valid = not (nonempty errors);
      errors = errors;
      warnings = selector_warnings d ++ currency_warnings d.fields;
    }
