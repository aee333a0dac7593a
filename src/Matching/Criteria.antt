-- ===== src/Matching/Criteria.antt =====
-- packages/matching_engine/candidates.py, and the narrowing of candidates in memory by
-- apps/api/paymentops_api/services/matching_service.py.
use payment_ops.Prelude.{
  ℕ, Bool, true, false, not, ◌&&◌, ◌||◌, Option, none, some, List, [], ◌∷◌, ◌++◌, Text, text_eq,
  option_text_eq, truthy, or_else, is_none, nonempty, any, leb, if◌then◌else◌,
}
use payment_ops.Unicode.{Unicode, remove_char, upper}
use payment_ops.Matching.Numbers.{Numbers}
use payment_ops.Matching.Normalize.{normalize_reference}
use payment_ops.Matching.Records.{get_or, MatchRecord, MatchingPolicy}
use payment_ops.Matching.Evaluate.{take, distance}

-- `DEFAULT_MAX_CANDIDATES`, `DEFAULT_DATE_WINDOW_DAYS`
abbrev pub default_max_candidates : ℕ
default_max_candidates = 20

abbrev pub default_date_window_days : ℕ
default_date_window_days = 7

pub data DateField : Type 0 where
  booking_date value_date : DateField

abbrev dated : DateField → Option ℕ → List (DateField × ℕ)
dated field none = []
dated field (some d) = (field, d) ∷ []

abbrev pub text_or_empty : Option Text → Text
text_or_empty none = []
text_or_empty (some s) = s

-- `a.replace(" ", "").replace("-", "").upper()`
unfoldable pub compact_account : Unicode → Text → Text
compact_account u a = upper u (remove_char b'-' (remove_char b' ' a))

abbrev prefix_of : Option Text → Option Text
prefix_of none = none
prefix_of (some s) = some (take 8 s)

-- A text that is empty is as if it were absent.
abbrev present : Option Text → Option Text
present a = if truthy a then a else none

module _ (n : Numbers) where
  open n use {Decimal}

  -- The dictionary of criteria: a key that is not set is `none`, and the dates are the fields to
  -- compare, in order.
  pub record Criteria : Type 0 where
    pub currency : Option Text
    pub amounts : Option (Decimal × Decimal)
    pub date_fields : List (DateField × ℕ)
    pub reference_prefix : Option Text
    pub account : Option Text

  -- `DEFAULT_AMOUNT_PCT` is the default tolerance, in percent.
  unfoldable pub amount_window : MatchingPolicy n → Option Decimal → Option (Decimal × Decimal)
  amount_window policy none = none
  amount_window policy (some amount) =
      let tolerance = get_or policy.amount_tolerances "amount" (n.float 20) in
      let part = n.dec_mul amount (n.dec_div (n.of_float tolerance) (n.decimal 100)) in
      if n.nonzero tolerance then some (n.dec_sub amount part, n.dec_add amount part) else none

  -- An amount within both ends of the window, where both are there.
  unfoldable pub amount_fits : Option (Decimal × Decimal) → Option Decimal → Bool
  amount_fits (some (low, high)) (some amount) = n.dec_le low amount && n.dec_le amount high
  amount_fits _ _ = true

  unfoldable pub date_of : MatchRecord n → DateField → Option ℕ
  date_of r booking_date = r.booking_date
  date_of r value_date = r.value_date

  unfoldable pub date_within : MatchRecord n → DateField × ℕ → Bool
  date_within cand (field, day) = elim (date_of cand field) [
    | none ↦ false
    | some d ↦ leb (distance d day) default_date_window_days
  ]

  unfoldable pub dates_fit : List (DateField × ℕ) → MatchRecord n → Bool
  dates_fit dates cand =
      not (nonempty dates)
      || (is_none cand.value_date && is_none cand.booking_date)
      || any (date_within cand) dates

  unfoldable pub currency_fits : Option Text → Option Text → Bool
  currency_fits wanted given = not (truthy wanted && truthy given) || option_text_eq given wanted

  module _ (u : Unicode) where
    unfoldable pub narrowing_criteria : MatchRecord n → MatchingPolicy n → Criteria
    narrowing_criteria r policy = record {
      currency = present r.currency;
      amounts = amount_window policy r.amount;
      date_fields = dated booking_date r.booking_date ++ dated value_date r.value_date;
      reference_prefix =
          prefix_of
            (normalize_reference u (present (or_else r.remittance_reference r.external_reference)));
      account = present (or_else r.debtor_account r.creditor_account);
    }

    unfoldable pub reference_fits : Option Text → MatchRecord n → Bool
    reference_fits wanted cand =
        not (truthy wanted)
        || option_text_eq
            (prefix_of (
              normalize_reference u
                (some (text_or_empty (or_else cand.remittance_reference cand.external_reference)))))
            wanted

    unfoldable pub account_fits : Option Text → MatchRecord n → Bool
    account_fits wanted cand =
        not (truthy wanted)
        || text_eq
            (compact_account u (text_or_empty (or_else cand.debtor_account cand.creditor_account)))
            (compact_account u (text_or_empty wanted))

    -- `_candidate_matches`
    unfoldable pub candidate_matches : MatchRecord n → Criteria → Bool
    candidate_matches cand crit =
        currency_fits crit.currency cand.currency
        && amount_fits crit.amounts cand.amount
        && dates_fit crit.date_fields cand
        && reference_fits crit.reference_prefix cand
        && account_fits crit.account cand

    unfoldable pub narrow : Text → Criteria → List (MatchRecord n) → List (MatchRecord n)
    narrow source_id crit [] = []
    narrow source_id crit (cand ∷ cands) =
        let rest = narrow source_id crit cands in
        if not (text_eq cand.record_id source_id) && candidate_matches cand crit
        then cand ∷ rest
        else rest

    -- `_filter_candidates`
    unfoldable pub filter_candidates :
        MatchRecord n → List (MatchRecord n) → MatchingPolicy n → ℕ → List (MatchRecord n)
    filter_candidates source cands policy max_candidates =
        take max_candidates (narrow source.record_id (narrowing_criteria source policy) cands)
