-- ===== src/Matching/Run/Tests.antt =====
-- A run in which two payments compete for one invoice, and the theorems on it.
use payment_ops.Prelude.{◌≡◌, refl, true, Bool, List, [], ◌∷◌, codes, Text, text_eq, All, Memᴰ}
use payment_ops.Unicode.Ascii.{ascii}
use payment_ops.Matching.Samples.{whole, payment, invoice, policy}
use payment_ops.Matching.Records.{
  MatchRecord, MatchClassification, get_or, normalized_text, normalize_record,
}
use payment_ops.Matching.Evaluate.{
  evaluate_pair, is_critical, compare_kind, compare_field, conflicts_critically, conflicts_by_name,
  critical_conflicts, classify, is_skipped, tally, score, take, kind, result, exact_result,
  amount_result, date_result, fuzzy_result,
}
use payment_ops.Matching.Run.{
  MatchCandidate, execute_reconciliation, claim_of, claimed_by_other, insert, sort, strong,
  final_classification, settle, choose, decisions, reconcile_source, reconcile_sources,
}
use payment_ops.Matching.Run.OneToOne.{execute_reconciliation-one_to_one}
use payment_ops.Matching.Run.Rows.{IsSafeRow, execute_reconciliation-conflict_free}
use payment_ops.Matching.Criteria.{
  amount_window, amount_fits, dates_fit, currency_fits, narrowing_criteria, reference_fits,
  account_fits, candidate_matches, narrow, filter_candidates,
}
use payment_ops.Matching.Normalize.{
  normalize_identifier, normalize_iban, normalize_bic, normalize_reference, normalize_currency,
  normalize_country,
}
use payment_ops.Matching.Names.{normalize_name}
use payment_ops.Unicode.{is_space, lstrip, strip, squeeze, collapse, translate, upper}

abbrev first : MatchRecord whole
first = record payment { record_id = codes "P-1" }

abbrev second : MatchRecord whole
second = record payment { record_id = codes "P-2" }

abbrev bill : MatchRecord whole
bill = record invoice { record_id = codes "I-1" }

abbrev sources : List (MatchRecord whole)
sources = first ∷ second ∷ []

abbrev always : Text → Text → Bool
always s c = true

abbrev through : MatchRecord whole → List (MatchRecord whole) → Bool
through src cands = true

-- The comparison of the second payment raises.
abbrev first_only : MatchRecord whole → List (MatchRecord whole) → Bool
first_only src cands = text_eq src.record_id (codes "P-1")

execute_reconciliation-conflict_free_example :
    All
      (IsSafeRow whole)
      (execute_reconciliation whole ascii policy always through sources (bill ∷ [])).rows
execute_reconciliation-conflict_free_example =
    execute_reconciliation-conflict_free whole ascii policy always through sources (bill ∷ [])

abbrev matched_row : MatchCandidate whole
matched_row = record {
  source_record_id = codes "P-1";
  candidate_record_id = codes "I-1";
  classification = MatchClassification.matched;
  decision = evaluate_pair whole ascii first bill policy;
}

execute_reconciliation-one_to_one_example :
    matched_row.source_record_id ≡ matched_row.source_record_id
unfolding claim_of claimed_by_other insert sort strong final_classification settle choose decisions
    reconcile_source reconcile_sources execute_reconciliation amount_window amount_fits dates_fit
    currency_fits narrowing_criteria reference_fits account_fits candidate_matches narrow
    filter_candidates is_critical compare_kind compare_field conflicts_critically conflicts_by_name
    critical_conflicts classify is_skipped tally score evaluate_pair take kind result exact_result
    amount_result date_result fuzzy_result get_or normalized_text normalize_record
    normalize_identifier normalize_iban normalize_bic normalize_reference normalize_currency
    normalize_country normalize_name is_space lstrip strip squeeze collapse translate upper text_eq
execute_reconciliation-one_to_one_example =
    execute_reconciliation-one_to_one whole ascii policy always through (bill ∷ []) sources
      matched_row matched_row (Memᴰ.head refl) (Memᴰ.head refl) refl refl refl
