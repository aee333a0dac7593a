-- ===== src/Profiles/Published.antt =====
-- What is published is valid.
use mathlib.Core.Option.{some-injective}
use mathlib.Core.Path.{subst}
use payment_ops.Prelude.{
  ℕ, ◌≡◌, refl, sym, ◌∙◌, Bool, true, some, List, [], ◌∷◌, Text, All, All-append, find,
  Option-cases, Bool-cases, inl, inr, ◌⊎◌, arith,
}
use payment_ops.Rules.Declarative.{RuleConfig}
use payment_ops.Mapping.{MappingDefinition}
use payment_ops.Profiles.{
  draft, published, ProfileRow, VersionRow, Tables, validate_profile, Outcome, ok, err, is_profile,
  is_published, update_first, create_profile, update_row, update_profile, publish_row,
  publish_profile,
}

abbrev pub IsValidVersion : VersionRow → Type 0
IsValidVersion v = validate_profile v.mapping v.rules ≡ []

abbrev pub IsValidIfPublished : ProfileRow → Type 0
IsValidIfPublished row =
    is_published row.status ≡ true → validate_profile row.mapping row.rules ≡ []

abbrev pub AreValid : Tables → Type 0
AreValid t = All IsValidIfPublished t.profiles × All IsValidVersion t.versions

-- A call that raises commits nothing.
abbrev OnOk : (Tables → Type 0) → Outcome → Type 0
OnOk P (ok t) = P t
OnOk P (err e) = Unit

List-cases {ℓ} :
    {A : Type ℓ} (xs : List A) → (xs ≡ []) ⊎ ((x : A) × ((ys : List A) × (xs ≡ x ∷ ys)))
List-cases [] = inl refl
List-cases (x ∷ xs) = inr (x, (xs, refl))

All-update_first {κ} :
    (P : ProfileRow → Type κ) (p : ProfileRow → Bool) (f : ProfileRow → ProfileRow)
    (xs : List ProfileRow) (x : ProfileRow)
    → find p xs ≡ some x
    → P (f x)
    → All P xs
    → All P (update_first p f xs)
unfolding find update_first
All-update_first P p f [] x found new all = tt
All-update_first P p f (y ∷ xs) x found new all = elim (Bool-cases (p y)) [
  | inl e ↦
      let here : find p (y ∷ xs) ≡ some y = rw e refl in
      let same : y ≡ x = some-injective y x (sym here ∙ found) in rw e (rw same new, all.1)
  | inr e ↦
      let there : find p xs ≡ find p (y ∷ xs) = rw e refl in
      rw e (all.0, All-update_first P p f xs x (there ∙ found) new all.1)
]

update_row-AreValid :
    (org id : ℕ) (name : Text) (mapping : MappingDefinition) (rules : List RuleConfig)
    (row : ProfileRow) (t : Tables)
    → find (is_profile org id) t.profiles ≡ some row
    → AreValid t
    → OnOk AreValid (update_row org id name mapping rules row t)
unfolding update_row
update_row-AreValid org id name mapping rules row t found valid =
    elim (Bool-cases (is_published row.status)) [
      | inl e ↦ rw e tt
      | inr e ↦ rw e (
        All-update_first IsValidIfPublished (is_profile org id)
            (λ r. record r { name = name; mapping = mapping; rules = rules }) t.profiles row found
            (λ yes. ground (arith, e, yes)) valid.0,
        valid.1,
      )
    ]

publish_row-AreValid :
    (org id : ℕ) (row : ProfileRow) (t : Tables)
    → find (is_profile org id) t.profiles ≡ some row
    → AreValid t
    → OnOk AreValid (publish_row org id row t)
unfolding publish_row
publish_row-AreValid org id row t found valid =
    elim (List-cases (validate_profile row.mapping row.rules)) [
      | inl e ↦
          rw (e, publish_row)
            (
              All-update_first IsValidIfPublished (is_profile org id)
                  (λ r. record r { status = published }) t.profiles row found (λ _. e) valid.0,
              All-append IsValidVersion t.versions (_ ∷ []) valid.1 (e, tt),
            )
      | inr (problem, (problems, e)) ↦ rw (e, publish_row) tt
    ]

update_profile-AreValid :
    (org id : ℕ) (name : Text) (mapping : MappingDefinition) (rules : List RuleConfig) (t : Tables)
    → AreValid t
    → OnOk AreValid (update_profile org id name mapping rules t)
unfolding update_profile
update_profile-AreValid org id name mapping rules t valid =
    elim (Option-cases (find (is_profile org id) t.profiles)) [
      | inl e ↦ rw (e, update_profile) tt
      | inr (row, e) ↦
          rw (e, update_profile) (update_row-AreValid org id name mapping rules row t e valid)
    ]

publish_profile-AreValid :
    (org id : ℕ) (t : Tables) → AreValid t → OnOk AreValid (publish_profile org id t)
unfolding publish_profile
publish_profile-AreValid org id t valid =
    elim (Option-cases (find (is_profile org id) t.profiles)) [
      | inl e ↦ rw (e, publish_profile) tt
      | inr (row, e) ↦ rw (e, publish_profile) (publish_row-AreValid org id row t e valid)
    ]

-- The calls of the service, where a profile is created as a draft.
pub data Reach : Tables → Type 0 where
  start : Reach (record { profiles = []; versions = [] })
  created :
      (id org : ℕ) (name : Text) (mapping : MappingDefinition) (rules : List RuleConfig)
      (version : ℕ) {t : Tables}
      → Reach t
      → Reach (create_profile id org name draft mapping rules version t)
  updated :
      (org id : ℕ) (name : Text) (mapping : MappingDefinition) (rules : List RuleConfig)
      {t t' : Tables}
      → Reach t
      → update_profile org id name mapping rules t ≡ ok t'
      → Reach t'
  published_as :
      (org id : ℕ) {t t' : Tables} → Reach t → publish_profile org id t ≡ ok t' → Reach t'

-- If profiles are created as drafts, then whatever calls follow, every published profile and every
-- version that was kept of one is valid: its mapping and all of its rules.
pub Reach-AreValid : (t : Tables) → Reach t → AreValid t
unfolding create_profile
Reach-AreValid _ start = (tt, tt)
Reach-AreValid _ (created id org name mapping rules version {t} r) =
    let valid = Reach-AreValid t r in
    (
      All-append IsValidIfPublished t.profiles (_ ∷ []) valid.0 (λ yes. ground (arith, yes), tt),
      valid.1,
    )
Reach-AreValid t' (updated org id name mapping rules {t} r e) =
    subst (OnOk AreValid) e
      (update_profile-AreValid org id name mapping rules t (Reach-AreValid t r))
Reach-AreValid t' (published_as org id {t} r e) =
    subst (OnOk AreValid) e (publish_profile-AreValid org id t (Reach-AreValid t r))
