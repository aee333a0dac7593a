-- ===== src/Account/Reconcile/Codes.antt =====
-- The evidence and conflict codes of packages/iso_engine/account/reconciliation.py, and the lists
-- that a comparison appends to.
use payment_ops.Prelude.{
  ℕ, Bool, true, false, Option, none, some, List, [], ◌∷◌, ◌++◌, Text, any, ◌==◌,
}

pub data Evidence : Type 0 where
  uetr_exact txid_exact e2e_exact instr_exact account_servicer_exact : Evidence
  amount_exact currency_exact date_within_tolerance account_exact : Evidence
  reference_normalized_exact credit_debit_expected : Evidence

pub data Conflict : Type 0 where
  amount_conflict currency_conflict account_conflict id_conflict credit_debit_conflict : Conflict

-- A number for each code: `==` on codes is `==` on these.
abbrev pub rank : Evidence → ℕ
rank uetr_exact = 0
rank txid_exact = 1
rank e2e_exact = 2
rank instr_exact = 3
rank account_servicer_exact = 4
rank amount_exact = 5
rank currency_exact = 6
rank date_within_tolerance = 7
rank account_exact = 8
rank reference_normalized_exact = 9
rank credit_debit_expected = 10

abbrev pub rank_conflict : Conflict → ℕ
rank_conflict amount_conflict = 0
rank_conflict currency_conflict = 1
rank_conflict account_conflict = 2
rank_conflict id_conflict = 3
rank_conflict credit_debit_conflict = 4

-- `code in evidence`
unfoldable pub has : Evidence → List Evidence → Bool
has e = any (λ d. rank e == rank d)

-- `code in conflicts`
unfoldable pub objected : Conflict → List Conflict → Bool
objected c = any (λ d. rank_conflict c == rank_conflict d)

-- Membership in `_STRONG_EXACT`.
abbrev pub is_strong : Evidence → Bool
is_strong uetr_exact = true
is_strong txid_exact = true
is_strong e2e_exact = true
is_strong instr_exact = true
is_strong _ = false

pub record Log : Type 0 where
  pub evidence : List Evidence
  pub conflicts : List Conflict

abbrev pub note : Evidence → Log → Log
note e log = record log { evidence = log.evidence ++ e ∷ [] }

abbrev pub object : Conflict → Log → Log
object c log = record log { conflicts = log.conflicts ++ c ∷ [] }

-- Whether two optional texts agree by `same`: `none` where one is absent or empty.
unfoldable pub agreement : (Text → Text → Bool) → Option Text → Option Text → Option Bool
agreement same (some (c ∷ a)) (some (d ∷ b)) = some (same (c ∷ a) (d ∷ b))
agreement same _ _ = none

unfoldable pub agrees : Option Bool → Bool
agrees (some true) = true
agrees _ = false

unfoldable pub disagrees : Option Bool → Bool
disagrees (some false) = true
disagrees _ = false
