-- ===== src/Mapping/Tests.antt =====
-- A mapping of one JSON record with the debtor's name and country.
use payment_ops.Prelude.{
  ◌≡◌, refl, not, ◌&&◌, ◌||◌, none, some, [], ◌∷◌, codes, all, nonempty, truthy, length, Text,
  text_eq,
}
use payment_ops.Unicode.Ascii.{ascii}
use payment_ops.Domain.Payment
use payment_ops.Domain.Payment.{PostalAddress, ValidationStatus}
use payment_ops.Matching.Samples.{whole}
use payment_ops.Rules.Default.{address_ruleset}
use payment_ops.Rules.Address.{addresses}
use payment_ops.Unicode.{strip, lstrip, is_space, split_on, add_char}
use payment_ops.Repair.{
  Analysis, drop_empty, get_field, propose, propose_at, propose_addresses, propose_changes,
  generate_candidate, model_candidate,
}
use payment_ops.Mapping.{
  json, required, FieldMapping, MappingDefinition, MappingResult, text, object, member, none_left,
  Library,
}
use payment_ops.Mapping.Validator.{is_xml, validate_mapping}
use payment_ops.Mapping.Validator.Sound.{
  is_sound_field, all_distinct, targets, validate_mapping-valid,
}
use payment_ops.Mapping.Mapper.{
  Record, entry, json_records, map_records, map_fields, take_value, get_value, put_taken,
  map_to_canonical, extract_records,
}
use payment_ops.Mapping.Selectors.{get_member}
use payment_ops.Mapping.Transforms.{apply_transforms, transform, transform_text}
use payment_ops.Mapping.Fresh.{show_index, prefix_at, new_address, new_party, new_transaction}
use payment_ops.Mapping.Targets.{
  put_field, set_address_field, set_address, set_party, part_of, show_value, set_part, set_segments,
  set_target,
}
use payment_ops.Mapping.Mapper.Issues.{
  missing_issue, missing_in_all, map_to_canonical-missing_in_all,
}
use payment_ops.Mapping.Unrepaired.{generate_candidate-map_to_canonical}

abbrev no_library : Library whole
no_library = record {
  Element = Text;
  nodes = λ e path. none;
  texts = λ e path. none;
  show = λ v. [];
  parse_decimal = λ s. none;
  parse_datetime = λ s. none;
  minor = λ v. none;
}

abbrev field : Text → Text → FieldMapping
field source target = record {
  source = source;
  target = target;
  required = required;
  transforms = "trim" ∷ [];
  default = none;
}

abbrev mapping : MappingDefinition
mapping = record {
  mapping_version = codes "1";
  source_format = json;
  record_selector = none;
  fields =
      field (codes "name") (codes "debtor.name")
      ∷ field (codes "land") (codes "debtor.postal_address.country")
      ∷ field (codes "id") (codes "end_to_end_id")
      ∷ [];
}

abbrev customer : Record whole no_library ascii
customer = entry (
    object (
      member (codes "name") (text (codes "Ann"))
        (member (codes "land") (text (codes "Italy")) none_left)))

validate_mapping-valid_example : (validate_mapping mapping).valid ≡ (
    nonempty mapping.fields
    && (not (is_xml json) || truthy none)
    && all is_sound_field mapping.fields
    && all_distinct (targets mapping.fields))
validate_mapping-valid_example = validate_mapping-valid mapping

-- What the mapper makes of the customer, who has no identifier.
abbrev mapped : MappingResult
mapped = record {
  message = record {
    message_type = some (codes "json");
    message_id = none;
    creation_datetime = none;
    transactions =
        record new_transaction {
          debtor = some (record new_party {
            name = some (codes "Ann");
            postal_address = some (record new_address {
              country = some (codes "Italy");
              source_path = some (codes "transactions[0]/Dbtr/PstlAdr");
              original_fields = ("Ctry", codes "Italy") ∷ [];
            });
          });
        }
        ∷ [];
    source_format = Payment.SourceFormat.json;
    validation_status = ValidationStatus.pending;
  };
  mapping_version = codes "1";
  issues = missing_issue (field (codes "id") (codes "end_to_end_id")) ∷ [];
}

customer-mapped : map_to_canonical whole no_library ascii mapping customer ≡ some mapped
unfolding map_to_canonical extract_records json_records map_records map_fields take_value get_value
    put_taken set_target set_segments set_part part_of set_party set_address set_address_field
    put_field show_value apply_transforms transform transform_text strip lstrip is_space get_member
    prefix_at show_index drop_empty split_on add_char text_eq
customer-mapped = refl

map_to_canonical-missing_in_all_example :
    (length mapped.message.transactions ≡ 1)
    × (mapped.issues ≡ missing_in_all whole no_library ascii mapping.fields (customer ∷ []))
unfolding extract_records json_records
map_to_canonical-missing_in_all_example =
    map_to_canonical-missing_in_all whole no_library ascii mapping customer (customer ∷ []) mapped
      refl customer-mapped

-- A provider that knows every country.
abbrev italian : PostalAddress → Analysis
italian a = record { country_code = some (codes "IT"); town_name = none }

generate_candidate-map_to_canonical_example :
    generate_candidate ascii italian address_ruleset none mapped.message
    ≡ some (
        model_candidate address_ruleset
          (propose_changes italian mapped.message.transactions)
          mapped.message)
unfolding propose_changes propose_addresses propose_at propose addresses get_field text_eq
generate_candidate-map_to_canonical_example =
    generate_candidate-map_to_canonical whole no_library ascii italian address_ruleset mapping
      customer mapped customer-mapped refl
