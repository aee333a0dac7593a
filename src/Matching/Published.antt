-- ===== src/Matching/Published.antt =====
-- apps/api/paymentops_api/services/matching_service.py: policies and their published versions. A
-- call that raises commits nothing.
use payment_ops.Prelude.{
  ℕ, ◌+◌, ◌≤◌, ◌≡◌, refl, Bool, true, ◌&&◌, Option, none, some, List, [], ◌∷◌, ◌++◌, Text, ltb,
  ◌==◌, if◌then◌else◌, find, update_where, All, All-append, ap, Option-cases, inl, inr, arith,
  All-map_hyp,
}
use payment_ops.Matching.Numbers.{Numbers}
use payment_ops.Matching.Records.{MatchingPolicy}
use payment_ops.Matching.Policy.{default_policy}

pub data PolicyStatus : Type 0 where
  draft published : PolicyStatus

pub record PolicyRow : Type 0 where
  pub id : ℕ
  pub organization_id : ℕ
  pub name : Text
  pub status : PolicyStatus

module _ (n : Numbers) where
  -- The fields of a `MatchingPolicyVersion` are those of the policy, whose number is the version.
  pub record PolicyVersion : Type 0 where
    pub policy_id : ℕ
    pub organization_id : ℕ
    pub policy : MatchingPolicy n

  pub record PolicyTables : Type 0 where
    pub policies : List PolicyRow
    pub versions : List PolicyVersion

  unfoldable pub is_policy : ℕ → ℕ → PolicyRow → Bool
  is_policy org id row = (row.organization_id == org) && (row.id == id)

  -- A version of the policy in the organisation.
  unfoldable pub is_version : ℕ → ℕ → PolicyVersion → Bool
  is_version org id v = (v.policy_id == id) && (v.organization_id == org)

  unfoldable pub create_policy : ℕ → ℕ → Text → PolicyTables → PolicyTables
  create_policy id org name t = record t {
    policies =
        t.policies ++ record { id = id; organization_id = org; name = name; status = draft } ∷ [];
  }

  unfoldable pub count_versions : ℕ → ℕ → List PolicyVersion → ℕ
  count_versions org id [] = 0
  count_versions org id (v ∷ vs) = (if is_version org id v then 1 else 0) + count_versions org id vs

  -- `_next_version`
  unfoldable pub next_version : ℕ → ℕ → List PolicyVersion → ℕ
  next_version org id vs = count_versions org id vs + 1

  -- The row of the next version.
  abbrev pub version_row : ℕ → ℕ → MatchingPolicy n → ℕ → PolicyVersion
  version_row org id policy number = record {
    policy_id = id;
    organization_id = org;
    policy = record policy { version = number };
  }

  unfoldable pub add_version : ℕ → ℕ → MatchingPolicy n → PolicyTables → PolicyTables
  add_version org id policy t = record {
    policies =
        update_where (is_policy org id) (λ row. record row { status = published }) t.policies;
    versions = t.versions ++ version_row org id policy (next_version org id t.versions) ∷ [];
  }

  -- `none` is the `LookupError` of `get_policy_row`.
  unfoldable pub publish_policy : ℕ → ℕ → MatchingPolicy n → PolicyTables → Option PolicyTables
  publish_policy org id policy t = elim (find (is_policy org id) t.policies) [
    | none ↦ none
    | some row ↦ some (add_version org id policy t)
  ]

  -- The version with the greatest number; among equal numbers the first.
  unfoldable pub newest : ℕ → ℕ → List PolicyVersion → Option PolicyVersion
  newest org id [] = none
  newest org id (v ∷ vs) =
      let rest = newest org id vs in
      if is_version org id v
      then elim rest [
        | none ↦ some v
        | some w ↦ if ltb v.policy.version w.policy.version then some w else some v
      ]
      else rest

  unfoldable pub policy_of : Option PolicyVersion → MatchingPolicy n
  policy_of none = default_policy n 1
  policy_of (some v) = v.policy

  unfoldable pub get_published_policy : ℕ → Option ℕ → PolicyTables → MatchingPolicy n
  get_published_policy org none t = default_policy n 1
  get_published_policy org (some id) t = policy_of (newest org id t.versions)

  -- The calls on the tables, from the empty ones.
  pub data Reach : PolicyTables → Type 0 where
    start : Reach (record { policies = []; versions = [] })
    created :
        (id org : ℕ) (name : Text) {t : PolicyTables}
        → Reach t
        → Reach (create_policy id org name t)
    published_as :
        (org id : ℕ) (policy : MatchingPolicy n) {t t' : PolicyTables}
        → Reach t
        → publish_policy org id policy t ≡ some t'
        → Reach t'

  -- No version of a policy has a number above the count of its versions.
  abbrev IsNumbered : List PolicyVersion → Type 0
  IsNumbered vs =
      (org id : ℕ)
      → All (λ v. is_version org id v ≡ true → v.policy.version ≤ count_versions org id vs) vs

  count_versions-append :
      (org id : ℕ) (vs : List PolicyVersion) (v : PolicyVersion)
      → count_versions org id (vs ++ v ∷ [])
        ≡ count_versions org id vs + (if is_version org id v then 1 else 0)
  unfolding count_versions
  count_versions-append org id [] v = omega arith
  count_versions-append org id (w ∷ vs) v = omega (arith, count_versions-append org id vs v)

  -- A greatest version at the end is the newest.
  newest-append :
      (org id : ℕ) (vs : List PolicyVersion) (v : PolicyVersion) (k : ℕ)
      → All (λ w. is_version org id w ≡ true → w.policy.version ≤ k) vs
      → is_version org id v ≡ true
      → v.policy.version ≡ k + 1
      → newest org id (vs ++ v ∷ []) ≡ some v
  unfolding newest
  newest-append org id [] v k h own top = ground arith
  newest-append org id (w ∷ vs) v k h own top =
      let rest = newest-append org id vs v k h.1 own top in let low = h.0 in rw rest (ground arith)

  is_version_unique :
      (org id org' id' : ℕ) (v : PolicyVersion)
      → is_version org id v ≡ true
      → is_version org' id' v ≡ true
      → (org ≡ org') × (id ≡ id')
  unfolding is_version
  is_version_unique org id org' id' v h h' = ground arith

  is_version_row :
      (org id : ℕ) (policy : MatchingPolicy n) (k : ℕ)
      → is_version org id (version_row org id policy k) ≡ true
  unfolding is_version
  is_version_row org id policy k = ground arith

  newly_numbered :
      (vs : List PolicyVersion) (org id o i : ℕ) (policy : MatchingPolicy n)
      → is_version o i (version_row org id policy (next_version org id vs)) ≡ true
      → next_version org id vs
        ≤ count_versions o i (vs ++ version_row org id policy (next_version org id vs) ∷ [])
  unfolding next_version
  newly_numbered vs org id o i policy own =
      let row = version_row org id policy (next_version org id vs) in
      let (e, f) =
        is_version_unique o i org id row own
          (is_version_row org id policy (next_version org id vs)) in
      rw (e, f)
        (omega (
          arith,
          count_versions-append org id vs row,
          ap one (is_version_row org id policy (next_version org id vs)),
        ))
    where
      one : Bool → ℕ
      one b = if b then 1 else 0

  IsNumbered-append :
      (vs : List PolicyVersion) (org id : ℕ) (policy : MatchingPolicy n)
      → IsNumbered vs
      → IsNumbered (vs ++ version_row org id policy (next_version org id vs) ∷ [])
  IsNumbered-append vs org id policy h o i =
      All-append _ vs _
        (All-map_hyp _ vs
          (λ v old own. omega (
            arith,
            old own,
            count_versions-append o i vs (version_row org id policy (next_version org id vs)),
          ))
          (h o i))
        (newly_numbered vs org id o i policy, tt)

  published_tables :
      (org id : ℕ) (policy : MatchingPolicy n) (t t' : PolicyTables)
      → publish_policy org id policy t ≡ some t'
      → t' ≡ add_version org id policy t
  unfolding publish_policy
  published_tables org id policy t t' h = elim (Option-cases (find (is_policy org id) t.policies)) [
    | inl absent ↦ absurd (nothing (rw (absent, publish_policy) at h))
    | inr (row, found) ↦ let h' = rw (found, publish_policy) at h in ground arith
  ]
    where
      nothing : none ≡ some t' → ⊥
      nothing e = cc

  Reach-IsNumbered : {t : PolicyTables} → Reach t → IsNumbered t.versions
  unfolding create_policy add_version
  Reach-IsNumbered start = λ org id. tt
  Reach-IsNumbered (created id org name r) = Reach-IsNumbered r
  Reach-IsNumbered (published_as org id policy {t} {t'} r h) =
      rw (published_tables org id policy t t' h)
        (IsNumbered-append t.versions org id policy (Reach-IsNumbered r))

  -- A policy that is published is the one that matching then uses, under the next number, whatever
  -- policies were created and published before.
  pub get_published_policy-publish_policy :
      (org id : ℕ) (policy : MatchingPolicy n) (t t' : PolicyTables)
      → Reach t
      → publish_policy org id policy t ≡ some t'
      → get_published_policy org (some id) t'
        ≡ record policy { version = next_version org id t.versions }
  unfolding get_published_policy add_version next_version policy_of
  get_published_policy-publish_policy org id policy t t' r h =
      rw (published_tables org id policy t t' h) (
        ap policy_of (
          newest-append org id t.versions
            (version_row org id policy (next_version org id t.versions))
            (count_versions org id t.versions) (Reach-IsNumbered r org id)
            (is_version_row org id policy _) refl))
