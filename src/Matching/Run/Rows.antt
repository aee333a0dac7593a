-- ===== src/Matching/Run/Rows.antt =====
-- The decisions behind the rows of a reconciliation run.
use payment_ops.Prelude.{
  ℕ, ◌≡◌, refl, Bool, true, false, List, [], ◌∷◌, map, Text, All, All-append, Bool-cases, inl, inr,
  arith,
}
use payment_ops.Unicode.{Unicode}
use payment_ops.Matching.Numbers.{Numbers}
use payment_ops.Matching.Records.{MatchClassification, MatchRecord, MatchingPolicy}
use payment_ops.Matching.Evaluate.{evaluate_pair}
use payment_ops.Matching.Safety.{is_match, evaluate_pair-conflict_free}
use payment_ops.Matching.Criteria.{filter_candidates, default_max_candidates}
use payment_ops.Matching.Run.{
  claims, no_counts, MatchCandidate, Progress, Scored, insert, sort, decisions, settle, choose,
  count_failure, strong, final_classification, reconcile_source, reconcile_sources,
  execute_reconciliation, is_unmatched,
}

module _ (n : Numbers) where
  -- A decision for a match has no critical conflict.
  abbrev IsSafe : Scored n → Type 0
  IsSafe d = claims d.1.classification ≡ true → d.1.critical_conflicts ≡ []

  abbrev pub IsSafeRow : MatchCandidate n → Type 0
  IsSafeRow r = claims r.classification ≡ true → r.decision.critical_conflicts ≡ []

  claims-is_match : (c : MatchClassification) → claims c ≡ is_match c
  claims-is_match MatchClassification.matched = refl
  claims-is_match _ = refl

  All-insert :
      (d : Scored n) (ds : List (Scored n)) → IsSafe d → All IsSafe ds → All IsSafe (insert n d ds)
  unfolding insert
  All-insert d [] h hs = (h, tt)
  All-insert d (e ∷ es) h hs = elim (Bool-cases (n.lt d.1.match_score e.1.match_score)) [
    | inl lower ↦ rw lower (hs.0, All-insert d es h hs.1)
    | inr upper ↦ rw upper (h, hs)
  ]

  All-sort : (ds : List (Scored n)) → All IsSafe ds → All IsSafe (sort n ds)
  unfolding sort
  All-sort [] h = tt
  All-sort (d ∷ ds) h = All-insert d (sort n ds) h.0 (All-sort ds h.1)

  claims-final_classification :
      (source : Text) (best : Scored n) (m : ℕ) (claimed : List (Text × Text))
      → claims (final_classification n source best m claimed) ≡ true
      → claims best.1.classification ≡ true
  unfolding final_classification
  claims-final_classification source best m claimed h = ground arith

  settle-rows :
      (stored : Bool) (src : MatchRecord n) (best : Scored n) (m : ℕ) (p : Progress n)
      → IsSafe best
      → All IsSafeRow p.rows
      → All IsSafeRow
          (settle n stored src best (final_classification n src.record_id best m p.claimed) p).rows
  unfolding settle
  settle-rows true src best m p safe h =
      All-append IsSafeRow p.rows _ h
        (λ claiming. safe (claims-final_classification src.record_id best m p.claimed claiming), tt)
  settle-rows false src best m p safe h = h

  choose-rows :
      (stores : Text → Text → Bool) (src : MatchRecord n) (ds : List (Scored n)) (p : Progress n)
      → All IsSafe ds
      → All IsSafeRow p.rows
      → All IsSafeRow (choose n stores src ds p).rows
  unfolding choose
  choose-rows stores src [] p safe h = h
  choose-rows stores src (best ∷ others) p safe h =
      elim (Bool-cases (is_unmatched best.1.classification)) [
        | inl apart ↦ rw apart h
        | inr near ↦ rw near (settle-rows _ src best (strong n (best ∷ others)) p safe.0 h)
      ]

  module _ (u : Unicode) (policy : MatchingPolicy n) (stores : Text → Text → Bool)
      (compares : MatchRecord n → List (MatchRecord n) → Bool) where
    All-evaluated :
        (src : MatchRecord n) (cands : List (MatchRecord n))
        → All IsSafe (map (λ cand. (cand, evaluate_pair n u src cand policy)) cands)
    All-evaluated src [] = tt
    All-evaluated src (cand ∷ cands) = (
      λ claiming.
          evaluate_pair-conflict_free n u src cand policy (rw (claims-is_match _) at claiming),
      All-evaluated src cands,
    )

    reconcile_source-rows :
        (cands : List (MatchRecord n)) (src : MatchRecord n) (p : Progress n)
        → All IsSafeRow p.rows
        → All IsSafeRow (reconcile_source n u policy stores compares cands src p).rows
    unfolding reconcile_source decisions count_failure
    reconcile_source-rows cands src p h = elim (Bool-cases (compares src cands)) [
      | inl through ↦ rw through (
          choose-rows stores src (sort n (decisions n u policy stores compares src cands)) p
            (All-sort _
              (All-evaluated src (filter_candidates n u src cands policy default_max_candidates)))
            h)
      | inr raised ↦ rw raised h
    ]

    reconcile_sources-rows :
        (cands sources : List (MatchRecord n)) (p : Progress n)
        → All IsSafeRow p.rows
        → All IsSafeRow (reconcile_sources n u policy stores compares cands sources p).rows
    unfolding reconcile_sources
    reconcile_sources-rows cands [] p h = h
    reconcile_sources-rows cands (src ∷ sources) p h =
        reconcile_sources-rows cands sources
          (reconcile_source n u policy stores compares cands src p)
          (reconcile_source-rows cands src p h)

    -- Every row of a run that is a match or a possible match rests on a decision without a critical
    -- conflict.
    pub execute_reconciliation-conflict_free :
        (sources cands : List (MatchRecord n))
        → All IsSafeRow (execute_reconciliation n u policy stores compares sources cands).rows
    unfolding execute_reconciliation
    execute_reconciliation-conflict_free sources cands =
        reconcile_sources-rows cands sources
          (record { counts = no_counts; claimed = []; rows = [] }) tt
