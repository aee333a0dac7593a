-- ===== src/Lifecycle/Symmetry.antt =====
-- `correlate_profiles` with its arguments exchanged.
use payment_ops.Prelude.{
  ◌≡◌, refl, Bool, ◌&&◌, Option, none, some, Text, arith, option_text_eq_comm, truthy,
}
use payment_ops.Prelude.Int.{ℤ, int_eq_comm}
use payment_ops.Unicode.{Unicode}
use payment_ops.Matching.Normalize.{normalize_reference}
use payment_ops.Lifecycle.{
  CorrelationProfile, Log, Evidence, Conflict, both_equal, same_amount, same_reference,
  same_account, without_blanks, link_messages, compare_identifier, compare_amounts,
  compare_references, compare_accounts, collect, correlate_profiles,
}

and-and_comm : (x y z w : Bool) → z ≡ w → (x && y && z) ≡ (y && x && w)
and-and_comm x y z w h = ground arith

both_equal_comm : (a b : Option Text) → both_equal a b ≡ both_equal b a
unfolding both_equal
both_equal_comm a b = and-and_comm (truthy a) (truthy b) _ _ (option_text_eq_comm a b)

same_amount_comm : (a b : Option ℤ) → same_amount a b ≡ same_amount b a
unfolding same_amount
same_amount_comm (some a) (some b) = int_eq_comm a b
same_amount_comm (some a) none = refl
same_amount_comm none (some b) = refl
same_amount_comm none none = refl

same_account_comm : (a b : Option Text) → same_account a b ≡ same_account b a
unfolding same_account
same_account_comm a b =
    and-and_comm (truthy a) (truthy b) _ _
      (option_text_eq_comm (without_blanks a) (without_blanks b))

same_reference_comm :
    (u : Unicode) (a b : Option Text) → same_reference u a b ≡ same_reference u b a
unfolding same_reference
same_reference_comm u a b =
    and-and_comm (truthy a) (truthy b) _ _
      (both_equal_comm (normalize_reference u a) (normalize_reference u b))

module _ (a b : CorrelationProfile) (log : Log) where
  link_messages_comm : link_messages a b log ≡ link_messages b a log
  unfolding link_messages
  link_messages_comm = ground (
    arith,
    both_equal_comm a.message_id b.original_message_id,
    both_equal_comm a.original_message_id b.message_id,
    both_equal_comm a.message_id b.message_id,
  )

  compare_amounts_comm : compare_amounts a b log ≡ compare_amounts b a log
  unfolding compare_amounts
  compare_amounts_comm =
      rw (same_amount_comm a.amount b.amount, both_equal_comm a.currency b.currency) refl

  compare_references_comm :
      (u : Unicode) → compare_references u a b log ≡ compare_references u b a log
  unfolding compare_references
  compare_references_comm u = rw (same_reference_comm u a.reference b.reference) refl

  compare_accounts_comm : compare_accounts a b log ≡ compare_accounts b a log
  unfolding compare_accounts
  compare_accounts_comm = rw (same_account_comm a.account b.account) refl

compare_identifier_comm :
    (s t : Option Text) (code : Evidence) (c : Conflict) (log : Log)
    → compare_identifier s t code c log ≡ compare_identifier t s code c log
unfolding compare_identifier
compare_identifier_comm s t code c log = ground (arith, option_text_eq_comm s t)

collect_comm : (u : Unicode) (a b : CorrelationProfile) → collect u a b ≡ collect u b a
unfolding collect
collect_comm u a b =
    rw
      (
        compare_accounts_comm a b,
        compare_references_comm a b _ u,
        compare_amounts_comm a b,
        compare_identifier_comm a.instruction_id b.instruction_id,
        compare_identifier_comm a.end_to_end_id b.end_to_end_id,
        compare_identifier_comm a.transaction_id b.transaction_id,
        link_messages_comm a b,
      )
      refl

-- Two profiles correlate in the same way, with the same evidence and conflicts in the same order,
-- whichever is given first.
pub correlate_profiles_comm :
    (u : Unicode) (a b : CorrelationProfile) → correlate_profiles u a b ≡ correlate_profiles u b a
unfolding correlate_profiles
correlate_profiles_comm u a b = rw (collect_comm u a b) refl
