-- ===== src/Profiles/Tests.antt =====
-- A profile with one field, created and published.
use payment_ops.Prelude.{refl, none, [], ◌∷◌, codes, text_eq, find}
use payment_ops.Mapping.{csv, required, MappingDefinition}
use payment_ops.Mapping.Transforms.{supported_transforms}
use payment_ops.Mapping.Validator.{
  allowed_targets, is_allowed, transform_errors, field_errors, fields_errors, definition_errors,
  validate_mapping,
}
use payment_ops.Profiles.{
  published, ProfileRow, Tables, create_profile, publish_profile, publish_row, update_first,
  is_profile, validate_profile, rules_problems,
}
use payment_ops.Profiles.Published.{AreValid, Reach, Reach-AreValid}

abbrev mapping : MappingDefinition
mapping = record {
  mapping_version = codes "1";
  source_format = csv;
  record_selector = none;
  fields =
      record {
        source = codes "name";
        target = codes "debtor.name";
        required = required;
        transforms = "trim" ∷ [];
        default = none;
      }
      ∷ [];
}

abbrev row : ProfileRow
row = record {
  id = 1;
  organization_id = 7;
  name = codes "CSV";
  status = published;
  mapping = mapping;
  rules = [];
  version_number = 1;
}

abbrev tables : Tables
tables = record {
  profiles = row ∷ [];
  versions =
      record {
        profile_id = 1;
        organization_id = 7;
        version_number = 1;
        name = codes "CSV";
        mapping = mapping;
        rules = [];
      }
      ∷ [];
}

Reach-AreValid_example : AreValid tables
unfolding create_profile publish_profile publish_row update_first is_profile find validate_profile
    rules_problems validate_mapping definition_errors fields_errors field_errors transform_errors
    is_allowed allowed_targets supported_transforms text_eq
Reach-AreValid_example =
    Reach-AreValid tables
      (Reach.published_as 7 1 (Reach.created 1 7 (codes "CSV") mapping [] 1 Reach.start) refl)
