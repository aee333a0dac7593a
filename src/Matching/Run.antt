-- ===== src/Matching/Run.antt =====
-- apps/api/paymentops_api/services/matching_service.py: a reconciliation run over two sets of
-- records. An exception in a source's turn is caught and counted as a failure: `compares` says
-- whether its candidates are narrowed, compared and sorted without one (decimals and dates of the
-- library may raise), `stores` whether the database takes a row.
pub mod OneToOne
pub mod Totals
pub mod Rows
mod Tests
use payment_ops.Prelude.{
  ℕ, ◌+◌, Bool, true, false, not, ◌&&◌, ◌||◌, Option, none, some, List, [], ◌∷◌, ◌++◌, map, Text,
  text_eq, ltb, length, ◌==◌, if◌then◌else◌,
}
use payment_ops.Unicode.{Unicode}
use payment_ops.Matching.Numbers.{Numbers}
use payment_ops.Matching.Records.{MatchClassification, MatchRecord, MatchingPolicy, MatchDecision}
use payment_ops.Matching.Evaluate.{evaluate_pair}
use payment_ops.Matching.Criteria.{filter_candidates, default_max_candidates}

-- `dict.get` on the candidates that are claimed, the latest claim first.
unfoldable pub claim_of : Text → List (Text × Text) → Option Text
claim_of candidate [] = none
claim_of candidate ((c, owner) ∷ claimed) =
    if text_eq c candidate then some owner else claim_of candidate claimed

-- `best.record_id in claimed and claimed[best.record_id] != src.record_id`
unfoldable pub claimed_by_other : Text → Text → List (Text × Text) → Bool
claimed_by_other candidate source claimed = elim (claim_of candidate claimed) [
  | none ↦ false
  | some owner ↦ not (text_eq owner source)
]

abbrev pub is_matched : MatchClassification → Bool
is_matched MatchClassification.matched = true
is_matched _ = false

abbrev pub is_unmatched : MatchClassification → Bool
is_unmatched MatchClassification.unmatched = true
is_unmatched _ = false

-- Membership in (MATCHED, POSSIBLE_MATCH): the candidate is claimed.
abbrev pub claims : MatchClassification → Bool
claims MatchClassification.matched = true
claims MatchClassification.possible_match = true
claims _ = false

pub record Counts : Type 0 where
  pub matched : ℕ
  pub possible_match : ℕ
  pub review_required : ℕ
  pub unmatched : ℕ
  pub duplicate_candidate : ℕ
  pub failed : ℕ

abbrev pub no_counts : Counts
no_counts = record {
  matched = 0;
  possible_match = 0;
  review_required = 0;
  unmatched = 0;
  duplicate_candidate = 0;
  failed = 0;
}

-- The counter of a source's classification; the last branch is the `else` of the source.
unfoldable pub tick : MatchClassification → Counts → Counts
tick MatchClassification.matched c = record c { matched = c.matched + 1 }
tick MatchClassification.possible_match c = record c { possible_match = c.possible_match + 1 }
tick MatchClassification.duplicate_candidate c = record c {
  duplicate_candidate = c.duplicate_candidate + 1;
}
tick MatchClassification.unmatched c = record c { review_required = c.review_required + 1 }
tick MatchClassification.review_required c = record c { review_required = c.review_required + 1 }

abbrev pub tick_unmatched : Counts → Counts
tick_unmatched c = record c { unmatched = c.unmatched + 1 }

module _ (n : Numbers) where
  open n use {Float}

  pub record MatchCandidate : Type 0 where
    pub source_record_id : Text
    pub candidate_record_id : Text
    pub classification : MatchClassification
    pub decision : MatchDecision n

  -- The local state of the loop, and the rows added to the session.
  pub record Progress : Type 0 where
    pub counts : Counts
    pub claimed : List (Text × Text)
    pub rows : List MatchCandidate

  -- A candidate with its decision.
  abbrev pub Scored : Type 0
  Scored = MatchRecord n × MatchDecision n

  -- A stable sort by falling score: a pair goes behind those with a greater score.
  unfoldable pub insert : Scored → List Scored → List Scored
  insert d [] = d ∷ []
  insert d (e ∷ es) =
      let rest = insert d es in
      if n.lt d.1.match_score e.1.match_score then e ∷ rest else d ∷ e ∷ es

  unfoldable pub sort : List Scored → List Scored
  sort [] = []
  sort (d ∷ ds) = insert d (sort ds)

  unfoldable pub strong : List Scored → ℕ
  strong [] = 0
  strong (d ∷ ds) = (if is_matched d.1.classification then 1 else 0) + strong ds

  -- The classification of a source by its best candidate and the number of strong ones.
  unfoldable pub final_classification : Text → Scored → ℕ → List (Text × Text) → MatchClassification
  final_classification source best matches claimed =
      if ltb 1 matches
      then MatchClassification.duplicate_candidate
      else if claimed_by_other best.0.record_id source claimed
      then MatchClassification.review_required
      else best.1.classification

  -- The counter, the claim, then the row, which may not be stored.
  unfoldable pub settle : Bool → MatchRecord n → Scored → MatchClassification → Progress → Progress
  settle stored src best c p =
      let counted = tick c p.counts in
      let claimed = if claims c then (best.0.record_id, src.record_id) ∷ p.claimed else p.claimed in
      if stored
      then record {
        counts = counted;
        claimed = claimed;
        rows =
            p.rows
            ++ record {
              source_record_id = src.record_id;
              candidate_record_id = best.0.record_id;
              classification = c;
              decision = best.1;
            }
              ∷ [];
      }
      else record {
        counts = record counted { failed = counted.failed + 1 };
        claimed = claimed;
        rows = p.rows;
      }

  -- Once the decisions are sorted.
  unfoldable pub choose : (Text → Text → Bool) → MatchRecord n → List Scored → Progress → Progress
  choose stores src [] p = record p { counts = tick_unmatched p.counts }
  choose stores src (best ∷ others) p =
      if is_unmatched best.1.classification
      then record p { counts = tick_unmatched p.counts }
      else settle (stores src.record_id best.0.record_id) src best
          (final_classification src.record_id best (strong (best ∷ others)) p.claimed) p

  -- The `except` of the loop.
  unfoldable pub count_failure : Progress → Progress
  count_failure p = record p { counts = record p.counts { failed = p.counts.failed + 1 } }

  module _ (u : Unicode) (policy : MatchingPolicy n) (stores : Text → Text → Bool)
      (compares : MatchRecord n → List (MatchRecord n) → Bool) where
    unfoldable pub decisions : MatchRecord n → List (MatchRecord n) → List Scored
    decisions src cands =
        map (λ cand. (cand, evaluate_pair n u src cand policy))
          (filter_candidates n u src cands policy default_max_candidates)

    -- The body of the loop: nothing is counted before the candidates are compared.
    unfoldable pub reconcile_source : List (MatchRecord n) → MatchRecord n → Progress → Progress
    reconcile_source cands src p =
        if compares src cands
        then choose stores src (sort (decisions src cands)) p
        else count_failure p

    unfoldable pub reconcile_sources :
        List (MatchRecord n) → List (MatchRecord n) → Progress → Progress
    reconcile_sources cands [] p = p
    reconcile_sources cands (src ∷ srcs) p =
        reconcile_sources cands srcs (reconcile_source cands src p)

    -- `execute_reconciliation`, whose run is COMPLETED if no source failed and PARTIAL otherwise.
    unfoldable pub execute_reconciliation : List (MatchRecord n) → List (MatchRecord n) → Progress
    execute_reconciliation sources cands =
        reconcile_sources cands sources (record { counts = no_counts; claimed = []; rows = [] })

  abbrev pub is_completed : Progress → Bool
  is_completed p = p.counts.failed == 0
