-- ===== src/Account/Ingest/Counted.antt =====
-- How the entries that are handed to reconciliation are counted, and what leaves the count alone.
use payment_ops.Prelude.{
  ℕ, ◌+◌, ◌≤◌, ◌≡◌, refl, sym, ◌∙◌, Bool, true, false, ◌&&◌, none, List, [], ◌∷◌, ◌++◌, Text,
  text_eq_sound, length, length-append, if◌then◌else◌, find, Bool-cases, Option-cases, inl, inr,
  arith,
}
use payment_ops.Domain.Account.{AccountReconciliationStatus}
use payment_ops.Account.Ingest.{
  found, AccountEntryRow, AccountReconciliationRow, Tables, is_entry, is_exception, is_case,
  case_id_of, ensure_case,
}
use payment_ops.Account.Ingest.Entries.{raise_case}

-- The number of the members that meet a test.
unfoldable pub count {ℓ} : {A : Type ℓ} → (A → Bool) → List A → ℕ
count p [] = 0
count p (x ∷ xs) = (if p x then 1 else 0) + count p xs

-- A row that was handed to reconciliation, whatever came of it: neither a duplicate nor a confirmation.
abbrev pub was_reconciled : AccountEntryRow → Bool
was_reconciled row = elim row.evidence [ found _ ↦ true | _ ↦ false ]

abbrev pub is_first : ℕ → Text → AccountEntryRow → Bool
is_first org h row = is_entry org h row && was_reconciled row

-- One such row at most for each identity of an organisation, and as many rows of reconciliations.
abbrev pub IsOnceIn : List AccountEntryRow → List AccountReconciliationRow → Type 0
IsOnceIn rows reconciliations =
    ((org : ℕ) (h : Text) → count (is_first org h) rows ≤ 1)
    × (length reconciliations ≡ count was_reconciled rows)

abbrev pub IsOnce : Tables → Type 0
IsOnce t = IsOnceIn t.entries t.reconciliations

pub count-append {ℓ} :
    {A : Type ℓ} (p : A → Bool) (xs : List A) (x : A)
    → count p (xs ++ x ∷ []) ≡ count p xs + (if p x then 1 else 0)
unfolding count
count-append p [] x = omega arith
count-append p (y ∷ xs) x = omega (arith, count-append p xs x)

-- What is not found is not counted.
pub count-find {ℓ} :
    {A : Type ℓ} (p q : A → Bool) (xs : List A) → find p xs ≡ none → count (λ x. p x && q x) xs ≡ 0
unfolding count find
count-find p q [] h = refl
count-find p q (x ∷ xs) h = ground (arith, count-find p q xs)

pub is_entry_sound :
    (org : ℕ) (h : Text) (row : AccountEntryRow)
    → is_entry org h row ≡ true
    → (row.organization_id ≡ org) × (row.identity_hash ≡ h)
unfolding is_entry
is_entry_sound org h row e = ground (arith, text_eq_sound row.identity_hash h)

-- A row of an identity that was not found.
pub first_fits :
    (rows : List AccountEntryRow) (row : AccountEntryRow)
    → find (is_entry row.organization_id row.identity_hash) rows ≡ none
    → (org : ℕ) (h : Text) → count (is_first org h) rows ≤ 1
    → count (is_first org h) (rows ++ row ∷ []) ≤ 1
first_fits rows row absent org h before = elim (Bool-cases (is_entry org h row)) [
  | inl e ↦
      let same = is_entry_sound org h row e in
      let none_yet : count (is_first org h) rows ≡ 0 =
        rw (← same.0, ← same.1)
          (count-find (is_entry row.organization_id row.identity_hash) was_reconciled rows
            absent) in
      rw (count-append (is_first org h) rows row, none_yet) (ground arith)
  | inr e ↦ rw (count-append (is_first org h) rows row, e) (omega (arith, before))
]

-- A row that is no reconciliation changes no count.
pub repeated_fits :
    (p : AccountEntryRow → Bool) (rows : List AccountEntryRow) (row : AccountEntryRow)
    → p row ≡ false
    → count p (rows ++ row ∷ []) ≡ count p rows
repeated_fits p rows row e = rw (count-append p rows row, e) (omega arith)

-- The two tables that the invariant is about.
abbrev pub Keeps : Tables → Tables → Type 0
Keeps t t' = (t'.entries ≡ t.entries) × (t'.reconciliations ≡ t.reconciliations)

pub ensure_case-Keeps :
    (org : ℕ) (row : AccountEntryRow) (c : AccountReconciliationStatus) (t : Tables)
    → Keeps t (ensure_case org row c t)
unfolding ensure_case
ensure_case-Keeps org row c t =
    elim (Option-cases (find (is_case org (case_id_of row.identity_hash)) t.cases)) [
      | inl e ↦ rw (e, ensure_case) (refl, refl)
      | inr (x, e) ↦ rw (e, ensure_case) (refl, refl)
    ]

pub IsOnce-Keeps : (t t' : Tables) → Keeps t t' → IsOnce t → IsOnce t'
IsOnce-Keeps t t' keeps once = rw (keeps.0, keeps.1) once

pub raise_case-Keeps :
    (org : ℕ) (row : AccountEntryRow) (t : Tables) → Keeps t (raise_case org row t)
raise_case-Keeps org row t = elim (Bool-cases (is_exception row.reconciliation_status)) [
  | inl e ↦ rw e (ensure_case-Keeps org row row.reconciliation_status t)
  | inr e ↦ rw e (refl, refl)
]

pub new_row-IsOnce :
    (t : Tables) (row : AccountEntryRow) (x : AccountReconciliationRow)
    → was_reconciled row ≡ true
    → find (is_entry row.organization_id row.identity_hash) t.entries ≡ none
    → IsOnce t
    → IsOnceIn (t.entries ++ row ∷ []) (t.reconciliations ++ x ∷ [])
new_row-IsOnce t row x first absent once = (
  λ org h. first_fits t.entries row absent org h (once.0 org h),
  rw (length-append t.reconciliations (x ∷ []), count-append was_reconciled t.entries row, first)
      (omega (arith, once.1)),
)

pub known_row-IsOnce :
    (t : Tables) (row : AccountEntryRow)
    → was_reconciled row ≡ false
    → IsOnce t
    → IsOnceIn (t.entries ++ row ∷ []) t.reconciliations
known_row-IsOnce t row later once = (
  λ org h. rw (repeated_fits (is_first org h) t.entries row (ground (arith, later))) (once.0 org h),
  once.1 ∙ sym (repeated_fits was_reconciled t.entries row later),
)
