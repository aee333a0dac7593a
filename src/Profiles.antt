-- ===== src/Profiles.antt =====
-- apps/api/paymentops_api/services/integration_service.py: integration profiles, which are drafts
-- until a valid one is published. Columns that are only copied are left out.
pub mod Published
mod Tests
use payment_ops.Prelude.{
  ℕ, String, Bool, true, false, ◌&&◌, Option, none, some, List, [], ◌∷◌, ◌++◌, map, Text, nonempty,
  ◌==◌, if◌then◌else◌, find,
}
use payment_ops.Rules.Declarative.{RuleConfig, ConfigError, validate_rule_config}
use payment_ops.Mapping.{MappingDefinition, MappingIssue}
use payment_ops.Mapping.Validator.{validate_mapping}

pub data ProfileStatus : Type 0 where
  draft published : ProfileStatus

pub record ProfileRow : Type 0 where
  pub id : ℕ
  pub organization_id : ℕ
  pub name : Text
  pub status : ProfileStatus
  pub mapping : MappingDefinition
  pub rules : List RuleConfig
  pub version_number : ℕ

pub record VersionRow : Type 0 where
  pub profile_id : ℕ
  pub organization_id : ℕ
  pub version_number : ℕ
  pub name : Text
  pub mapping : MappingDefinition
  pub rules : List RuleConfig

pub record Tables : Type 0 where
  pub profiles : List ProfileRow
  pub versions : List VersionRow

pub data ProfileProblem : Type 0 where
  mapping_problem : MappingIssue → ProfileProblem
  rule_problem : String → ConfigError → ProfileProblem

unfoldable pub rules_problems : List RuleConfig → List ProfileProblem
rules_problems [] = []
rules_problems (rc ∷ rcs) =
    map (λ e. rule_problem rc.rule_id e) (validate_rule_config rc) ++ rules_problems rcs

-- `validate_profile`
unfoldable pub validate_profile : MappingDefinition → List RuleConfig → List ProfileProblem
validate_profile mapping rules =
    map (λ e. mapping_problem e) (validate_mapping mapping).errors ++ rules_problems rules

-- `LookupError`, and the two kinds of `ValueError`.
pub data ProfileError : Type 0 where
  profile_not_found published_is_immutable : ProfileError
  invalid_profile : List ProfileProblem → ProfileError

pub data Outcome : Type 0 where
  ok : Tables → Outcome
  err : ProfileError → Outcome

unfoldable pub is_profile : ℕ → ℕ → ProfileRow → Bool
is_profile org id row = (row.id == id) && (row.organization_id == org)

abbrev pub is_published : ProfileStatus → Bool
is_published draft = false
is_published published = true

-- The row that the query gives is changed.
unfoldable pub update_first :
    (ProfileRow → Bool) → (ProfileRow → ProfileRow) → List ProfileRow → List ProfileRow
update_first p f [] = []
update_first p f (row ∷ rows) =
    let rest = update_first p f rows in if p row then f row ∷ rows else row ∷ rest

-- The state is that of the profile which is handed in.
unfoldable pub create_profile :
    ℕ → ℕ → Text → ProfileStatus → MappingDefinition → List RuleConfig → ℕ → Tables → Tables
create_profile id org name status mapping rules version t = record t {
  profiles =
      t.profiles
      ++ record {
        id = id;
        organization_id = org;
        name = name;
        status = status;
        mapping = mapping;
        rules = rules;
        version_number = version;
      }
        ∷ [];
}

unfoldable pub update_row :
    ℕ → ℕ → Text → MappingDefinition → List RuleConfig → ProfileRow → Tables → Outcome
update_row org id name mapping rules row t =
    if is_published row.status
    then err published_is_immutable
    else ok (record t {
      profiles =
          update_first (is_profile org id)
            (λ r. record r { name = name; mapping = mapping; rules = rules }) t.profiles;
    })

unfoldable pub update_profile :
    ℕ → ℕ → Text → MappingDefinition → List RuleConfig → Tables → Outcome
update_profile org id name mapping rules t = elim (find (is_profile org id) t.profiles) [
  | none ↦ err profile_not_found
  | some row ↦ update_row org id name mapping rules row t
]

-- The snapshot, and the new state of the row.
unfoldable pub publish_row : ℕ → ℕ → ProfileRow → Tables → Outcome
publish_row org id row t = elim (validate_profile row.mapping row.rules) [
  | problem ∷ problems ↦ err (invalid_profile (problem ∷ problems))
  | [] ↦ ok (record {
    profiles = update_first (is_profile org id) (λ r. record r { status = published }) t.profiles;
    versions =
        t.versions
        ++ record {
          profile_id = row.id;
          organization_id = row.organization_id;
          version_number = row.version_number;
          name = row.name;
          mapping = row.mapping;
          rules = row.rules;
        }
          ∷ [];
  })
]

unfoldable pub publish_profile : ℕ → ℕ → Tables → Outcome
publish_profile org id t = elim (find (is_profile org id) t.profiles) [
  | none ↦ err profile_not_found
  | some row ↦ publish_row org id row t
]
