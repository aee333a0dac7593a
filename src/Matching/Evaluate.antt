-- ===== src/Matching/Evaluate.antt =====
-- packages/matching_engine/matcher.py: the comparison of two records under a policy.
mod Results
unfoldable pub use Results.*
use payment_ops.Prelude.{
  ℕ, ◌+◌, ◌-◌, String, Bool, true, false, not, ◌&&◌, ◌||◌, Option, none, some, List, [], ◌∷◌, ◌++◌,
  map, Text, text_eq, truthy, str_eq, any, nonempty, leb, if◌then◌else◌, zero, suc,
}
use payment_ops.Prelude.Int.{ℤ, pos, negsuc}
use payment_ops.Unicode.{Unicode}
use payment_ops.Matching.Numbers.{
  Numbers, Algorithm, ratio, partial_ratio, token_sort_ratio, token_set_ratio,
}
use payment_ops.Matching.Records.{
  FieldStatus, ComparisonType, MatchClassification, Field, key, get_or, get?, MatchRecord,
  MatchingPolicy, NormalizedRecord, FieldMatchResult, CriticalConflict, MatchDecision,
  normalize_record,
}

-- `code not in codes`, in the order in which the codes first stand.
unfoldable pub distinct : List String → List String → List String
distinct seen [] = seen
distinct seen (code ∷ rest) =
    distinct (if any (str_eq code) seen then seen else seen ++ code ∷ []) rest

module _ (n : Numbers) where
  open n use {Float}

  abbrev zero_score : Float
  zero_score = n.float 0

  module _ (policy : MatchingPolicy n) where
    unfoldable pub is_critical : Field → Bool
    is_critical field = any (str_eq (key field)) policy.critical_fields

    abbrev weight_of : Field → Float
    weight_of field = get_or policy.field_weights (key field) zero_score

    -- The body of the loop of `evaluate_pair`.
    unfoldable pub compare_kind :
        Kind → Field → NormalizedRecord n → NormalizedRecord n → FieldMatchResult n
    compare_kind identifier field a b =
        exact_result n field (a.text field) (b.text field) (weight_of field) (is_critical field)
          (exact_code field)
    compare_kind money field a b =
        amount_result n field a.amount b.amount (weight_of field) (is_critical field)
          (get? policy.amount_tolerances (key field))
    compare_kind day field a b =
        date_result n field (a.text field) (b.text field) (weight_of field) (is_critical field)
          (get_or policy.date_tolerances (key field) (pos 0))
    compare_kind approximate field a b =
        fuzzy_result n field (a.text field) (b.text field) (weight_of field) (is_critical field)
          (get_or policy.fuzzy_algorithms (key field) "token_sort_ratio") (exact_code field)

    unfoldable pub compare_field :
        NormalizedRecord n → NormalizedRecord n → Field → FieldMatchResult n
    compare_field a b field = compare_kind (kind field) field a b

    -- A critical field that differs.
    unfoldable pub conflicts_critically : FieldMatchResult n → Bool
    conflicts_critically r = is_critical r.field && is_mismatch r.status

    -- A party's name that differs by more than the threshold, with both names given.
    unfoldable pub conflicts_by_name : FieldMatchResult n → Bool
    conflicts_by_name r =
        is_name r.field
        && is_mismatch r.status
        && n.lt r.similarity (n.float 70)
        && truthy r.normalized_a
        && truthy r.normalized_b

    -- `_critical_conflicts`
    unfoldable pub critical_conflicts : List (FieldMatchResult n) → List (CriticalConflict n)
    critical_conflicts [] = []
    critical_conflicts (r ∷ rs) =
        (if conflicts_critically r
          then record { code = conflict_code r.field; field = r.field } ∷ []
          else [])
        ++ ((if conflicts_by_name r
              then record { code = "MATCH-CRITICAL-NAME-CONFLICT"; field = r.field } ∷ []
              else [])
            ++ critical_conflicts rs)

    -- `_classify`
    unfoldable pub classify : Float → List (CriticalConflict n) → MatchClassification
    classify s conflicts =
        let matched_t = get_or policy.thresholds "matched" (n.float 85) in
        let possible_t = get_or policy.thresholds "possible_match" (n.float 60) in
        let review_t = get_or policy.thresholds "review" (n.float 40) in
        if nonempty conflicts
        then if n.le review_t s
          then MatchClassification.review_required
          else MatchClassification.unmatched
        else if n.le matched_t s
        then MatchClassification.matched
        else if n.le possible_t s
        then MatchClassification.possible_match
        else if n.le review_t s
        then MatchClassification.review_required
        else MatchClassification.unmatched

  -- `fr.weight <= 0 or fr.status == FieldStatus.MISSING`
  unfoldable pub is_skipped : FieldMatchResult n → Bool
  is_skipped r = n.le r.weight zero_score || is_missing r.status

  -- The loop of `_score`: the total weight and the weighted sum.
  unfoldable pub tally : Float → Float → List (FieldMatchResult n) → Float × Float
  tally total weighted [] = (total, weighted)
  tally total weighted (r ∷ rs) =
      tally (if is_skipped r then total else n.add total r.weight)
        (if is_skipped r then weighted else n.add weighted (n.mul r.weight r.similarity)) rs

  -- `_score`
  unfoldable pub score : List (FieldMatchResult n) → Float
  score results =
      let (total, weighted) = tally zero_score zero_score results in
      if n.le total zero_score then zero_score else n.round2 (n.div weighted total)

  unfoldable pub evaluate_pair :
      Unicode → MatchRecord n → MatchRecord n → MatchingPolicy n → MatchDecision n
  evaluate_pair u record_a record_b policy =
      let na = normalize_record n u record_a in
      let nb = normalize_record n u record_b in
      let results = map (compare_field policy na nb) fields in
      let conflicts = critical_conflicts policy results in
      record {
        record_a_id = record_a.record_id;
        record_b_id = record_b.record_id;
        classification = classify policy (score results) conflicts;
        match_score = score results;
        critical_conflicts = conflicts;
        field_results = results;
        explanation_codes = distinct [] (map (λ r. r.explanation_code) results);
        policy_version = policy.version;
      }
