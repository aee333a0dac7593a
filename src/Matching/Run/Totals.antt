-- ===== src/Matching/Run/Totals.antt =====
-- The counters of a reconciliation run.
use payment_ops.Prelude.{ℕ, ◌+◌, ◌≤◌, ◌≡◌, if◌then◌else◌, Bool, List, [], ◌∷◌, Text, length}
use payment_ops.Unicode.{Unicode}
use payment_ops.Matching.Numbers.{Numbers}
use payment_ops.Matching.Records.{MatchRecord, MatchingPolicy}
use payment_ops.Matching.Run.{Counts, Progress}

-- The sources that were classified.
abbrev pub settled : Counts → ℕ
settled c = c.matched + c.possible_match + c.review_required + c.unmatched + c.duplicate_candidate

module _ (n : Numbers) where
  -- After `k` sources, of which `e` could not be compared: the others are classified, and each
  -- source is unmatched, has a row or failed.
  abbrev IsSettled : ℕ → ℕ → Progress n → Type 0
  IsSettled e k p =
      (settled p.counts + e ≡ k)
      × (length p.rows + p.counts.unmatched + p.counts.failed ≡ k)
      × (e ≤ p.counts.failed)

  module _ (u : Unicode) (policy : MatchingPolicy n) (stores : Text → Text → Bool)
      (compares : MatchRecord n → List (MatchRecord n) → Bool) where
    -- The sources whose comparison with the candidates raises.
    abbrev pub uncompared : List (MatchRecord n) → List (MatchRecord n) → ℕ
    uncompared cands [] = 0
    uncompared cands (src ∷ sources) =
        (if compares src cands then 0 else 1) + uncompared cands sources
