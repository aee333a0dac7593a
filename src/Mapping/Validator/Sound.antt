-- ===== src/Mapping/Validator/Sound.antt =====
-- When a mapping is valid.
use payment_ops.Prelude.{
  ◌≡◌, refl, String, Bool, true, not, ◌&&◌, ◌||◌, List, [], ◌∷◌, Text, text_eq, any, all, map,
  nonempty, nonempty-append, truthy, if◌then◌else◌, arith, text_eq_comm,
}
use payment_ops.Mapping.{FieldMapping, MappingDefinition}
use payment_ops.Mapping.Validator.{
  is_xml, is_allowed, is_supported, transform_errors, field_errors, fields_errors,
  definition_errors, validate_mapping,
}

-- No text stands twice.
unfoldable pub all_distinct : List Text → Bool
all_distinct [] = true
all_distinct (t ∷ ts) = not (any (text_eq t) ts) && all_distinct ts

abbrev pub is_sound_field : FieldMapping → Bool
is_sound_field f = nonempty f.source && is_allowed f.target && all is_supported f.transforms

abbrev pub targets : List FieldMapping → List Text
targets fs = map (λ f. f.target) fs

nonempty-transform_errors :
    (target : Text) (names : List String)
    → nonempty (transform_errors target names) ≡ not (all is_supported names)
unfolding transform_errors
nonempty-transform_errors target [] = refl
nonempty-transform_errors target (name ∷ names) = ground (
  arith,
  nonempty-append (if is_supported name then [] else _) (transform_errors target names),
  nonempty-transform_errors target names,
)

nonempty-field_errors :
    (seen : List Text) (f : FieldMapping)
    → nonempty (field_errors seen f) ≡ not (is_sound_field f && not (any (text_eq f.target) seen))
unfolding field_errors
nonempty-field_errors seen f =
    simp (nonempty-append, nonempty-transform_errors f.target f.transforms) (ground arith)

-- No field has a target that was seen.
abbrev are_fresh : List Text → List FieldMapping → Bool
are_fresh seen fs = all (λ f. not (any (text_eq f.target) seen)) fs

are_fresh-nil : (fs : List FieldMapping) → are_fresh [] fs ≡ true
are_fresh-nil [] = refl
are_fresh-nil (f ∷ fs) = are_fresh-nil fs

are_fresh-cons :
    (t : Text) (seen : List Text) (fs : List FieldMapping)
    → are_fresh (t ∷ seen) fs ≡ (not (any (text_eq t) (targets fs)) && are_fresh seen fs)
are_fresh-cons t seen [] = refl
are_fresh-cons t seen (f ∷ fs) = ground (arith, are_fresh-cons t seen fs, text_eq_comm f.target t)

nonempty-fields_errors :
    (seen : List Text) (fs : List FieldMapping)
    → nonempty (fields_errors seen fs)
      ≡ not (all is_sound_field fs && are_fresh seen fs && all_distinct (targets fs))
unfolding fields_errors all_distinct
nonempty-fields_errors seen [] = refl
nonempty-fields_errors seen (f ∷ fs) = ground (
  arith,
  nonempty-append (field_errors seen f) (fields_errors (f.target ∷ seen) fs),
  nonempty-field_errors seen f,
  nonempty-fields_errors (f.target ∷ seen) fs,
  are_fresh-cons f.target seen fs,
)

nonempty-definition_errors :
    (d : MappingDefinition)
    → nonempty (definition_errors d)
      ≡ not (nonempty d.fields && (not (is_xml d.source_format) || truthy d.record_selector))
unfolding definition_errors
nonempty-definition_errors d = simp (nonempty-append) (ground arith)

-- A mapping is valid exactly if it has fields, a custom XML mapping has a record selector, every
-- field has a source, an allowed target and supported transforms, and no target stands twice.
pub validate_mapping-valid :
    (d : MappingDefinition)
    → (validate_mapping d).valid ≡ (
        nonempty d.fields
        && (not (is_xml d.source_format) || truthy d.record_selector)
        && all is_sound_field d.fields
        && all_distinct (targets d.fields))
unfolding validate_mapping
validate_mapping-valid d = ground (
  arith,
  nonempty-append (definition_errors d) (fields_errors [] d.fields),
  nonempty-definition_errors d,
  nonempty-fields_errors [] d.fields,
  are_fresh-nil d.fields,
)
