-- ===== src/Mapping/Mapper.antt =====
-- packages/mapping_engine/mapper.py: the records of a source to a payment message. `none` is an
-- exception that leaves the mapper.
pub mod Issues
pub mod Paths
use payment_ops.Prelude.{
  ℕ, ◌+◌, Bool, true, false, not, ◌&&◌, Option, none, some, List, [], ◌∷◌, ◌++◌, map, Text, codes,
  truthy, nonempty, ◌==◌, if◌then◌else◌, ◌>>=◌,
}
use payment_ops.Unicode.{Unicode}
use payment_ops.Domain.Payment.{PaymentTransaction, PaymentMessage, ValidationStatus}
use payment_ops.Domain.Payment
use payment_ops.Matching.Numbers.{Numbers}
use payment_ops.Mapping.{
  SourceFormat, json, csv, custom_xml, FieldRequirement, required, MappingSeverity, FieldMapping,
  MappingDefinition, MappingIssue, MappingResult, Value, null, text, array, object, Library,
}
use payment_ops.Mapping.Selectors.{tokenize, resolve_json_path, resolve_xpath, get_member, items}
use payment_ops.Mapping.Transforms.{apply_transforms}
use payment_ops.Mapping.Fresh.{prefix_at, new_transaction}
use payment_ops.Mapping.Targets.{set_target}

module _ (n : Numbers) (l : Library n) (u : Unicode) where
  -- What a source is, or one of its records: a value of JSON or CSV, or an element.
  pub data Record : Type 0 where
    entry : Value n → Record
    element : l.Element → Record

  abbrev starts_with_dollar : Text → Bool
  starts_with_dollar [] = false
  starts_with_dollar (c ∷ s) = c == b'$'

  abbrev first_or_null : List (Value n) → Value n
  first_or_null [] = null
  first_or_null (v ∷ vs) = v

  abbrev first_text : List Text → Value n
  first_text [] = null
  first_text (s ∷ ss) = text s

  abbrev or_null : Option (Value n) → Value n
  or_null none = null
  or_null (some v) = v

  -- `_get_value`
  unfoldable pub get_value : Record → Text → Value n
  get_value (entry (object members)) source =
      if starts_with_dollar source
      then first_or_null (resolve_json_path n u (object members) source)
      else or_null (get_member n source members)
  get_value (entry _) source = null
  get_value (element e) source = first_text (resolve_xpath n l e source)

  abbrev one_object : Value n → List Record
  one_object (object members) = entry (object members) ∷ []
  one_object _ = []

  unfoldable pub json_records : Option Text → Record → List Record
  json_records selector (entry v) = elim selector [
    | none ↦ one_object v
    | some path ↦
        if nonempty path then map (λ v. entry v) (resolve_json_path n u v path) else one_object v
  ]
  json_records none (element e) = []
  json_records (some path) (element e) =
      if nonempty path && not (nonempty (tokenize u path)) then element e ∷ [] else []

  unfoldable pub csv_records : Record → List Record
  csv_records (entry (array values)) = map (λ v. entry v) (items n values)
  csv_records _ = []

  unfoldable pub xml_records : Option Text → Record → Option (List Record)
  xml_records none source = some []
  xml_records (some path) (entry v) = some []
  xml_records (some path) (element e) =
      if nonempty path
      then (do found ← l.nodes e path; some (map (λ e. element e) found))
      else some []

  -- `_extract_records`
  unfoldable pub extract_records : MappingDefinition → Record → Option (List Record)
  extract_records d source = elim d.source_format [
    | json ↦ some (json_records d.record_selector source)
    | csv ↦ some (csv_records source)
    | custom_xml ↦ xml_records d.record_selector source
  ]

  -- `value is None or value == ""`
  abbrev pub is_missing : Value n → Bool
  is_missing null = true
  is_missing (text []) = true
  is_missing _ = false

  abbrev pub is_required : FieldRequirement → Bool
  is_required required = true
  is_required _ = false

  -- What a field takes from a record: an issue, a value, or nothing.
  pub data Taken : Type 0 where
    lacking passed_over : Taken
    taken : Value n → Taken

  unfoldable pub take_value : FieldMapping → Value n → Taken
  take_value f v =
      if is_missing v
      then if is_required f.required
        then lacking
        else elim f.default [ none ↦ passed_over | some s ↦ taken (text s) ]
      else taken v

  -- The transaction so far, and the issues.
  abbrev State : Type 0
  State = PaymentTransaction × List MappingIssue

  unfoldable pub put_taken : Text → FieldMapping → Taken → State → Option State
  put_taken prefix f lacking s = some (
    s.0,
    s.1 ++ record { code = "MAP-001"; severity = MappingSeverity.error; path = some f.target } ∷ [],
  )
  put_taken prefix f passed_over s = some s
  put_taken prefix f (taken v) s = do
    tx ← set_target n l u prefix f.target (apply_transforms n l u f.transforms v) s.0
    some (tx, s.1)

  -- The loop over the fields.
  unfoldable pub map_fields : Text → Record → List FieldMapping → State → Option State
  map_fields prefix r [] s = some s
  map_fields prefix r (f ∷ fs) s =
      put_taken prefix f (take_value f (get_value r f.source)) s >>= map_fields prefix r fs

  -- The loop over the records, from the index of the next one.
  unfoldable pub map_records :
      List FieldMapping
      → ℕ
      → List Record
      → List MappingIssue
      → Option (List PaymentTransaction × List MappingIssue)
  map_records fields i [] issues = some ([], issues)
  map_records fields i (r ∷ rs) issues = do
    s ← map_fields (prefix_at i) r fields (new_transaction, issues)
    behind ← map_records fields (i + 1) rs s.1
    some (s.0 ∷ behind.0, behind.1)

  abbrev canonical_format : SourceFormat → Payment.SourceFormat
  canonical_format json = Payment.SourceFormat.json
  canonical_format csv = Payment.SourceFormat.csv
  canonical_format custom_xml = Payment.SourceFormat.xml_pain_001

  abbrev format_name : SourceFormat → Text
  format_name json = codes "json"
  format_name csv = codes "csv"
  format_name custom_xml = codes "custom_xml"

  unfoldable pub map_to_canonical : MappingDefinition → Record → Option MappingResult
  map_to_canonical d source = do
    records ← extract_records d source
    mapped ← map_records d.fields 0 records []
    some (record {
      message = record {
        message_type = some (format_name d.source_format);
        message_id = none;
        creation_datetime = none;
        transactions = mapped.0;
        source_format = canonical_format d.source_format;
        validation_status = ValidationStatus.pending;
      };
      mapping_version = d.mapping_version;
      issues = mapped.1;
    })
