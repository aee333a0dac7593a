-- ===== src/Matching/Explanations.antt =====
-- The explanation codes and the score of `evaluate_pair`.
use payment_ops.Prelude.{
  ◌≡◌, refl, ◌∙◌, sym, String, Bool, true, not, ◌&&◌, ◌||◌, List, [], ◌∷◌, ◌++◌, map, any, all,
  any-append, any-map, all-map, or-false, str_eq, eq_iff, Bool-eq_of_iff, arith, if◌then◌else◌,
}
use payment_ops.Unicode.{Unicode}
use payment_ops.Matching.Numbers.{Numbers}
use payment_ops.Matching.Records.{MatchRecord, MatchingPolicy, FieldMatchResult}
use payment_ops.Matching.Evaluate.{fields, distinct, is_skipped, tally, score, evaluate_pair}
use payment_ops.Matching.Safety.{compared}

-- `code in codes`
abbrev pub mentions : String → List String → Bool
mentions code = any (str_eq code)

-- No member stands again behind itself.
unfoldable pub no_repeats : List String → Bool
no_repeats [] = true
no_repeats (c ∷ cs) = not (mentions c cs) && no_repeats cs

str_eq_refl : (s : String) → str_eq s s ≡ true
str_eq_refl s = (eq_iff s s).1 refl

str_eq_comm : (s t : String) → str_eq s t ≡ str_eq t s
str_eq_comm s t =
    Bool-eq_of_iff _ _
      (λ h. (eq_iff t s).1 (sym ((eq_iff s t).0 h)), λ h. (eq_iff s t).1 (sym ((eq_iff t s).0 h)))

no_repeats-append :
    (c : String) (cs : List String)
    → no_repeats (cs ++ c ∷ []) ≡ (no_repeats cs && not (mentions c cs))
unfolding no_repeats
no_repeats-append c [] = refl
no_repeats-append c (d ∷ cs) =
    ground (arith, no_repeats-append c cs, any-append (str_eq d) cs (c ∷ []), str_eq_comm c d)

no_repeats-distinct :
    (seen codes : List String) → no_repeats seen ≡ true → no_repeats (distinct seen codes) ≡ true
unfolding distinct
no_repeats-distinct seen [] h = h
no_repeats-distinct seen (c ∷ codes) h =
    no_repeats-distinct (if any (str_eq c) seen then seen else seen ++ c ∷ []) codes
      (ground (arith, no_repeats-append c seen))

mentions_same :
    (code c : String) (cs : List String)
    → str_eq code c ≡ true
    → mentions c cs ≡ true
    → mentions code cs ≡ true
mentions_same code c cs h m = rw ((eq_iff code c).0 h) m

mentions-distinct :
    (code : String) (seen codes : List String)
    → mentions code (distinct seen codes) ≡ (mentions code seen || mentions code codes)
unfolding distinct
mentions-distinct code seen [] = sym (or-false (mentions code seen))
mentions-distinct code seen (c ∷ codes) = ground (
  arith,
  mentions-distinct code seen codes,
  mentions-distinct code (seen ++ c ∷ []) codes,
  any-append (str_eq code) seen (c ∷ []),
  mentions_same code c seen,
)

module _ (n : Numbers) where
  open n use {Float}

  tally-skipped :
      (total weighted : Float) (rs : List (FieldMatchResult n))
      → all (is_skipped n) rs ≡ true
      → tally n total weighted rs ≡ (total, weighted)
  unfolding tally
  tally-skipped total weighted [] h = refl
  tally-skipped total weighted (r ∷ rs) h =
      let (first, others) = and_split (is_skipped n r) (all (is_skipped n) rs) h in
      rw first (tally-skipped total weighted rs others)
    where
      and_split : (a b : Bool) → (a && b) ≡ true → (a ≡ true) × (b ≡ true)
      and_split a b h = ground arith

  module _ (u : Unicode) (a b : MatchRecord n) (policy : MatchingPolicy n) where
    -- The decision lists the code of every compared field, lists no other code, and lists no code
    -- twice.
    pub evaluate_pair-codes :
        (code : String)
        → (no_repeats (evaluate_pair n u a b policy).explanation_codes ≡ true)
          × (mentions code (evaluate_pair n u a b policy).explanation_codes
              ≡ any (λ f. str_eq code (compared n u a b policy f).explanation_code) fields)
    unfolding evaluate_pair no_repeats
    evaluate_pair-codes code = (
      no_repeats-distinct [] _ refl,
      mentions-distinct code [] _
          ∙ any-map (str_eq code) (λ (r : FieldMatchResult n). r.explanation_code)
              (map (compared n u a b policy) fields)
          ∙ any-map (λ (r : FieldMatchResult n). str_eq code r.explanation_code)
              (compared n u a b policy) fields,
    )

    -- If every field is missing on a side or has no positive weight, the score is zero. (The
    -- comparison of zero with itself is the only fact about floats that this takes.)
    pub evaluate_pair-nothing :
        n.le (n.float 0) (n.float 0) ≡ true
        → all (λ f. is_skipped n (compared n u a b policy f)) fields ≡ true
        → (evaluate_pair n u a b policy).match_score ≡ n.float 0
    unfolding evaluate_pair score
    evaluate_pair-nothing zero_le h =
        rw
          (
            tally-skipped (n.float 0) (n.float 0) _
                (all-map (is_skipped n) (compared n u a b policy) fields ∙ h),
            zero_le,
          )
          refl
