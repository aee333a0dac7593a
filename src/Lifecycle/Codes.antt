-- ===== src/Lifecycle/Codes.antt =====
-- The evidence and conflict codes of packages/iso_engine/lifecycle/correlation.py, and the lists
-- that a comparison appends to.
use payment_ops.Prelude.{ℕ, Bool, List, [], ◌∷◌, ◌++◌, any, ◌==◌}

pub data Evidence : Type 0 where
  message_id_exact original_message_id_exact transaction_id_exact end_to_end_id_exact : Evidence
  instruction_id_exact amount_exact currency_exact reference_exact account_exact : Evidence

-- The conflict that `_compare_identifier` names after its label.
pub data Conflict : Type 0 where
  transaction_id_conflict end_to_end_id_conflict instruction_id_conflict : Conflict

-- A number for each code: `==` on codes is `==` on these.
abbrev pub rank : Evidence → ℕ
rank message_id_exact = 0
rank original_message_id_exact = 1
rank transaction_id_exact = 2
rank end_to_end_id_exact = 3
rank instruction_id_exact = 4
rank amount_exact = 5
rank currency_exact = 6
rank reference_exact = 7
rank account_exact = 8

-- `code in evidence`
unfoldable pub has : Evidence → List Evidence → Bool
has e = any (λ d. rank e == rank d)

pub record Log : Type 0 where
  pub evidence : List Evidence
  pub conflicts : List Conflict

abbrev pub note : Evidence → Log → Log
note e log = record log { evidence = log.evidence ++ e ∷ [] }

abbrev pub object : Conflict → Log → Log
object c log = record log { conflicts = log.conflicts ++ c ∷ [] }
