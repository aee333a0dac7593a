-- ===== src/Matching/Safety.antt =====
-- When `evaluate_pair` may call two records a match.
use payment_ops.Prelude.{
  ◌≡◌, refl, ◌∙◌, String, Bool, true, false, not, ◌&&◌, ◌||◌, Option, none, some, List, [], ◌∷◌,
  any, any-map, nonempty, Text, arith, ℕ,
}
use payment_ops.Prelude.Int.{ℤ}
use payment_ops.Unicode.{Unicode}
use payment_ops.Matching.Numbers.{Numbers}
use payment_ops.Matching.Records.{
  MatchClassification, Field, MatchRecord, MatchingPolicy, NormalizedRecord, FieldMatchResult,
  CriticalConflict, normalize_record, get_or,
}
use payment_ops.Matching.Evaluate.{
  Kind, identifier, money, day, approximate, kind, fields, is_mismatch, is_critical, result,
  exact_result, amount_result, day_result, date_result, fuzzy_result, compare_kind, compare_field,
  conflicts_critically, conflicts_by_name, critical_conflicts, classify, evaluate_pair,
}

abbrev pub is_match : MatchClassification → Bool
is_match MatchClassification.matched = true
is_match MatchClassification.possible_match = true
is_match _ = false

any-fields : (q : Field → Bool) (f : Field) → q f ≡ true → any q fields ≡ true
any-fields q Field.transaction_id h = ground arith
any-fields q _ h = ground arith

module _ (n : Numbers) where
  open n use {Float, Decimal}

  field-exact_result :
      (f : Field) (a b : Option Text) (w : Float) (c : Bool) (code : String)
      → (exact_result n f a b w c code).field ≡ f
  unfolding exact_result result
  field-exact_result f (some a) (some b) w c code = ground arith
  field-exact_result f (some a) none w c code = refl
  field-exact_result f none b w c code = refl

  field-amount_result :
      (f : Field) (a b : Option Decimal) (w : Float) (c : Bool) (t : Option Float)
      → (amount_result n f a b w c t).field ≡ f
  unfolding amount_result result
  field-amount_result f (some a) (some b) w c t = ground arith
  field-amount_result f (some a) none w c t = refl
  field-amount_result f none b w c t = refl

  field-day_result :
      (f : Field) (a b : Option Text) (da db : Option ℕ) (w : Float) (c : Bool) (t : ℤ)
      → (day_result n f a b da db w c t).field ≡ f
  unfolding day_result result
  field-day_result f a b (some da) (some db) w c t = ground arith
  field-day_result f a b (some da) none w c t = refl
  field-day_result f a b none db w c t = refl

  field-date_result :
      (f : Field) (a b : Option Text) (w : Float) (c : Bool) (t : ℤ)
      → (date_result n f a b w c t).field ≡ f
  unfolding date_result result
  field-date_result f (some a) (some b) w c t = field-day_result f (some a) (some b) _ _ w c t
  field-date_result f (some a) none w c t = refl
  field-date_result f none b w c t = refl

  field-fuzzy_result :
      (f : Field) (a b : Option Text) (w : Float) (c : Bool) (name code : String)
      → (fuzzy_result n f a b w c name code).field ≡ f
  unfolding fuzzy_result result
  field-fuzzy_result f (some a) (some b) w c name code = ground arith
  field-fuzzy_result f (some a) none w c name code = refl
  field-fuzzy_result f none b w c name code = refl

  module _ (policy : MatchingPolicy n) where
    field-compare_kind :
        (k : Kind) (f : Field) (a b : NormalizedRecord n)
        → (compare_kind n policy k f a b).field ≡ f
    unfolding compare_kind
    field-compare_kind identifier f a b = field-exact_result f _ _ _ _ _
    field-compare_kind money f a b = field-amount_result f _ _ _ _ _
    field-compare_kind day f a b = field-date_result f _ _ _ _ _
    field-compare_kind approximate f a b = field-fuzzy_result f _ _ _ _ _ _

    field-compare_field :
        (a b : NormalizedRecord n) (f : Field) → (compare_field n policy a b f).field ≡ f
    unfolding compare_field
    field-compare_field a b f = field-compare_kind (kind f) f a b

    -- A result that raises a conflict.
    unfoldable pub conflicts : FieldMatchResult n → Bool
    conflicts r = conflicts_critically n policy r || conflicts_by_name n policy r

    nonempty-critical_conflicts :
        (rs : List (FieldMatchResult n))
        → nonempty (critical_conflicts n policy rs) ≡ any conflicts rs
    unfolding critical_conflicts conflicts
    nonempty-critical_conflicts [] = refl
    nonempty-critical_conflicts (r ∷ rs) = ground (arith, nonempty-critical_conflicts rs)

    is_match-classify :
        (s : Float) (cs : List (CriticalConflict n))
        → is_match (classify n policy s cs) ≡ (
            not (nonempty cs)
            && (n.le (get_or policy.thresholds "matched" (n.float 85)) s
                || n.le (get_or policy.thresholds "possible_match" (n.float 60)) s))
    unfolding classify
    is_match-classify s cs = ground arith

  module _ (u : Unicode) (a b : MatchRecord n) (policy : MatchingPolicy n) where
    -- The comparison of one field of the two records.
    abbrev pub compared : Field → FieldMatchResult n
    compared = compare_field n policy (normalize_record n u a) (normalize_record n u b)

    -- Two records are called a match or a possible match exactly if no field raises a conflict and
    -- the score reaches one of the two thresholds of the policy.
    pub evaluate_pair-is_match : is_match (evaluate_pair n u a b policy).classification ≡ (
        not (any (λ f. conflicts policy (compared f)) fields)
        && (n.le
              (get_or policy.thresholds "matched" (n.float 85))
              (evaluate_pair n u a b policy).match_score
            || n.le
                (get_or policy.thresholds "possible_match" (n.float 60))
                (evaluate_pair n u a b policy).match_score))
    unfolding evaluate_pair
    evaluate_pair-is_match = rw (is_match-classify, nonempty-critical_conflicts, any-map) refl

    -- A match or a possible match has no conflict.
    pub evaluate_pair-conflict_free :
        is_match (evaluate_pair n u a b policy).classification ≡ true
        → (evaluate_pair n u a b policy).critical_conflicts ≡ []
    unfolding evaluate_pair
    evaluate_pair-conflict_free h = empty _ (left_false _ _ (rw is_match-classify at h))
      where
        empty : (cs : List (CriticalConflict n)) → nonempty cs ≡ false → cs ≡ []
        empty [] e = refl
        empty (c ∷ cs) e = cc

        left_false : (x y : Bool) → (not x && y) ≡ true → x ≡ false
        left_false x y e = ground arith

    critical-conflicts :
        (f : Field)
        → is_critical n policy f ≡ true
        → is_mismatch (compared f).status ≡ true
        → conflicts policy (compared f) ≡ true
    unfolding conflicts conflicts_critically
    critical-conflicts f crit differs = rw (field-compare_field policy _ _ f, crit, differs) refl

    -- If the comparison of a field that the policy calls critical gives a mismatch, the records are
    -- neither a match nor a possible match.
    pub evaluate_pair-critical :
        (f : Field)
        → is_critical n policy f ≡ true
        → is_mismatch (compared f).status ≡ true
        → is_match (evaluate_pair n u a b policy).classification ≡ false
    evaluate_pair-critical f crit differs =
        evaluate_pair-is_match
        ∙ rw (any-fields (λ g. conflicts policy (compared g)) f (critical-conflicts f crit differs))
            refl
