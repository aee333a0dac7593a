-- ===== src/Mapping/Mapper/Issues.antt =====
-- Which issues the mapper reports, and how many transactions it makes.
use payment_ops.Prelude.{
  ℕ, ◌+◌, ◌≡◌, refl, sym, ap, ◌∙◌, Bool, ◌&&◌, Option, none, some, List, [], ◌∷◌, ◌++◌, length,
  arith, append_assoc, append-nil, OnSome, OnSome-bind, OnSome-always, OnSome-map, if◌then◌else◌,
  Bool-cases, inl, inr, Text,
}
use mathlib.Core.Path.{subst}
use payment_ops.Unicode.{Unicode}
use payment_ops.Domain.Payment.{PaymentTransaction}
use payment_ops.Matching.Numbers.{Numbers}
use payment_ops.Mapping.{
  FieldMapping, MappingDefinition, MappingIssue, MappingResult, MappingSeverity, Value, text,
  Library,
}
use payment_ops.Mapping.Fresh.{prefix_at, new_transaction}
use payment_ops.Mapping.Targets.{set_target}
use payment_ops.Mapping.Transforms.{apply_transforms}
use payment_ops.Mapping.Mapper.{
  Record, passed_over, taken, is_missing, is_required, get_value, take_value, put_taken, map_fields,
  map_records, map_to_canonical, extract_records,
}

abbrev pub missing_issue : FieldMapping → MappingIssue
missing_issue f = record {
  code = "MAP-001";
  severity = MappingSeverity.error;
  path = some f.target;
}

module _ (n : Numbers) (l : Library n) (u : Unicode) where
  -- The required fields that a record has no value for.
  abbrev pub lacks_value : Record n l u → FieldMapping → Bool
  lacks_value r f = is_missing n l u (get_value n l u r f.source) && is_required n l u f.required

  unfoldable pub missing_in : List FieldMapping → Record n l u → List MappingIssue
  missing_in [] r = []
  missing_in (f ∷ fs) r = (if lacks_value r f then missing_issue f ∷ [] else []) ++ missing_in fs r

  unfoldable pub missing_in_all : List FieldMapping → List (Record n l u) → List MappingIssue
  missing_in_all fs [] = []
  missing_in_all fs (r ∷ rs) = missing_in fs r ++ missing_in_all fs rs

  abbrev State : Type 0
  State = PaymentTransaction × List MappingIssue

  abbrev Adds : List MappingIssue → State → State → Type 0
  Adds new s t = t.1 ≡ s.1 ++ new

  put_value-Adds :
      (prefix : Text) (f : FieldMapping) (v : Value n) (s : State)
      → OnSome (Adds [] s) (put_taken n l u prefix f (taken v) s)
  unfolding put_taken
  put_value-Adds prefix f v s =
      OnSome-bind (λ (tx : PaymentTransaction). Unit) (Adds [] s) _ _ (λ tx _. sym (append-nil s.1))
        (OnSome-always
          (set_target n l u prefix f.target (apply_transforms n l u f.transforms v) s.0))

  put_default-Adds :
      (prefix : Text) (f : FieldMapping) (default : Option Text) (s : State)
      → OnSome (Adds [] s) (
          put_taken n l u prefix f
            (elim default [ none ↦ passed_over | some t ↦ taken (text t) ])
            s)
  unfolding put_taken
  put_default-Adds prefix f none s = sym (append-nil s.1)
  put_default-Adds prefix f (some t) s = put_value-Adds prefix f (text t) s

  put_taken-Adds :
      (prefix : Text) (f : FieldMapping) (v : Value n) (s : State)
      → OnSome
          (Adds
            (if is_missing n l u v && is_required n l u f.required
              then missing_issue f ∷ []
              else [])
            s)
          (put_taken n l u prefix f (take_value n l u f v) s)
  unfolding put_taken take_value
  put_taken-Adds prefix f v s = elim (Bool-cases (is_missing n l u v)) [
    | inl m ↦ elim (Bool-cases (is_required n l u f.required)) [
      | inl q ↦ rw (m, q) refl
      | inr q ↦ rw (m, q) (put_default-Adds prefix f f.default s)
    ]
    | inr m ↦ rw m (put_value-Adds prefix f v s)
  ]

  map_fields-Adds :
      (prefix : Text) (r : Record n l u) (fs : List FieldMapping) (s : State)
      → OnSome (Adds (missing_in fs r) s) (map_fields n l u prefix r fs s)
  unfolding map_fields missing_in
  map_fields-Adds prefix r [] s = sym (append-nil s.1)
  map_fields-Adds prefix r (f ∷ fs) s =
      OnSome-bind (Adds _ s) (Adds _ s) _ _
        (λ t first.
          OnSome-map (Adds (missing_in fs r) t) (Adds _ s) _
            (λ w then_.
              then_ ∙ ap (λ is. is ++ missing_in fs r) first ∙ append_assoc s.1 _ (missing_in fs r))
            (map_fields-Adds prefix r fs t))
        (put_taken-Adds prefix f (get_value n l u r f.source) s)

  -- As many transactions as records, and the issues behind those so far.
  abbrev Reports :
      List FieldMapping
      → List (Record n l u)
      → List MappingIssue
      → List PaymentTransaction × List MappingIssue
      → Type 0
  Reports fs rs issues p = (length p.0 ≡ length rs) × (p.1 ≡ issues ++ missing_in_all fs rs)

  map_records-Reports :
      (fs : List FieldMapping) (i : ℕ) (rs : List (Record n l u)) (issues : List MappingIssue)
      → OnSome (Reports fs rs issues) (map_records n l u fs i rs issues)
  unfolding map_records missing_in_all
  map_records-Reports fs i [] issues = (refl, sym (append-nil issues))
  map_records-Reports fs i (r ∷ rs) issues =
      OnSome-bind (Adds (missing_in fs r) (new_transaction, issues)) (Reports fs (r ∷ rs) issues) _
        _
        (λ s first.
          OnSome-bind (Reports fs rs s.1) (Reports fs (r ∷ rs) issues) _ _
            (λ behind rest. (
              omega (arith, rest.0),
              rest.1
                  ∙ ap (λ is. is ++ missing_in_all fs rs) first
                  ∙ append_assoc issues (missing_in fs r) (missing_in_all fs rs),
            ))
            (map_records-Reports fs (i + 1) rs s.1))
        (map_fields-Adds (prefix_at i) r fs (new_transaction, issues))

  abbrev ReportsAll : MappingDefinition → List (Record n l u) → MappingResult → Type 0
  ReportsAll d rs result =
      (length result.message.transactions ≡ length rs)
      × (result.issues ≡ missing_in_all d.fields rs)

  map_to_canonical-ReportsAll :
      (d : MappingDefinition) (source : Record n l u) (rs : List (Record n l u))
      → extract_records n l u d source ≡ some rs
      → OnSome (ReportsAll d rs) (map_to_canonical n l u d source)
  unfolding map_to_canonical
  map_to_canonical-ReportsAll d source rs found = rw found (
      OnSome-bind (Reports d.fields rs []) (ReportsAll d rs) (map_records n l u d.fields 0 rs []) _
        (λ mapped h. h) (map_records-Reports d.fields 0 rs []))

  -- The mapper makes one transaction of every record, and reports one error for each field that
  -- is required and missing in a record, in order, and no other.
  pub map_to_canonical-missing_in_all :
      (d : MappingDefinition) (source : Record n l u) (rs : List (Record n l u))
      (result : MappingResult)
      → extract_records n l u d source ≡ some rs
      → map_to_canonical n l u d source ≡ some result
      → (length result.message.transactions ≡ length rs)
        × (result.issues ≡ missing_in_all d.fields rs)
  map_to_canonical-missing_in_all d source rs result found e =
      subst (OnSome (ReportsAll d rs)) e (map_to_canonical-ReportsAll d source rs found)
