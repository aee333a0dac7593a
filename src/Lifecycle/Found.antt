-- ===== src/Lifecycle/Found.antt =====
-- What `correlate_profiles` finds, and the status that it draws from it.
use payment_ops.Prelude.{
  ◌≡◌, refl, ◌∙◌, Bool, true, false, not, ◌&&◌, ◌||◌, Option, none, some, List, [], ◌∷◌, ◌++◌, Text,
  arith, option_text_eq, text_eq_refl, truthy, if◌then◌else◌, any-append, or-false, and-false,
  and-true, or_assoc, nonempty, ◌==◌,
}
use payment_ops.Unicode.{Unicode}
use payment_ops.Domain.Lifecycle.{
  correlated, possible_correlation, unresolved, conflict, TransactionStatus, LifecycleStatusReport,
}
use payment_ops.Domain.Payment.{PaymentTransaction}
use payment_ops.Lifecycle.{
  CorrelationProfile, Log, Evidence, message_id_exact, original_message_id_exact,
  transaction_id_exact, end_to_end_id_exact, instruction_id_exact, amount_exact, currency_exact,
  reference_exact, account_exact, Conflict, rank, has, both_equal, same_amount, same_reference,
  same_account, link_messages, compare_identifier, compare_amounts, compare_references,
  compare_accounts, collect, status_of, correlate_profiles, profile_from_transaction,
  profile_from_status,
}

-- Both identifiers are there, and they differ.
unfoldable pub clash : Option Text → Option Text → Bool
clash a b = truthy a && truthy b && not (option_text_eq a b)

has-append :
    (e d : Evidence) (es : List Evidence) → has e (es ++ d ∷ []) ≡ (has e es || (rank e == rank d))
unfolding has
has-append e d es = simp (any-append, or-false)

nonempty-snoc {ℓ} : {A : Type ℓ} (xs : List A) (x : A) → nonempty (xs ++ x ∷ []) ≡ true
nonempty-snoc [] x = refl
nonempty-snoc (y ∷ xs) x = refl

or-true : (b : Bool) → (b || true) ≡ true
or-true true = refl
or-true false = refl

module _ (e : Evidence) where
  has-compare_identifier :
      (s t : Option Text) (code : Evidence) (c : Conflict) (log : Log)
      → has e (compare_identifier s t code c log).evidence
        ≡ (has e log.evidence || (both_equal s t && (rank e == rank code)))
  unfolding compare_identifier both_equal
  has-compare_identifier s t code c log =
      ground (arith, has-append e code log.evidence, or-false (has e log.evidence))

  has-compare_amounts :
      (a b : CorrelationProfile) (log : Log)
      → has e (compare_amounts a b log).evidence ≡ (
          has e log.evidence
          || (same_amount a.amount b.amount
              && both_equal a.currency b.currency
              && ((rank e == rank amount_exact) || (rank e == rank currency_exact))))
  unfolding compare_amounts
  has-compare_amounts a b log = ground (
    arith,
    has-append e amount_exact log.evidence,
    has-append e currency_exact (log.evidence ++ amount_exact ∷ []),
    or-false (has e log.evidence),
  )

  has-compare_references :
      (u : Unicode) (a b : CorrelationProfile) (log : Log)
      → has e (compare_references u a b log).evidence ≡ (
          has e log.evidence
          || (same_reference u a.reference b.reference && (rank e == rank reference_exact)))
  unfolding compare_references
  has-compare_references u a b log =
      ground (arith, has-append e reference_exact log.evidence, or-false (has e log.evidence))

  has-compare_accounts :
      (a b : CorrelationProfile) (log : Log)
      → has e (compare_accounts a b log).evidence ≡ (
          has e log.evidence
          || (same_account a.account b.account && (rank e == rank account_exact)))
  unfolding compare_accounts
  has-compare_accounts a b log =
      ground (arith, has-append e account_exact log.evidence, or-false (has e log.evidence))

  has-nil : has e [] ≡ false
  unfolding has
  has-nil = refl

conflicts-link_messages :
    (a b : CorrelationProfile) (log : Log) → (link_messages a b log).conflicts ≡ log.conflicts
unfolding link_messages
conflicts-link_messages a b log = ground arith

conflicts-compare_amounts :
    (a b : CorrelationProfile) (log : Log) → (compare_amounts a b log).conflicts ≡ log.conflicts
unfolding compare_amounts
conflicts-compare_amounts a b log = ground arith

conflicts-compare_references :
    (u : Unicode) (a b : CorrelationProfile) (log : Log)
    → (compare_references u a b log).conflicts ≡ log.conflicts
unfolding compare_references
conflicts-compare_references u a b log = ground arith

conflicts-compare_accounts :
    (a b : CorrelationProfile) (log : Log) → (compare_accounts a b log).conflicts ≡ log.conflicts
unfolding compare_accounts
conflicts-compare_accounts a b log = ground arith

nonempty-compare_identifier :
    (s t : Option Text) (code : Evidence) (c : Conflict) (log : Log)
    → nonempty (compare_identifier s t code c log).conflicts ≡ (nonempty log.conflicts || clash s t)
unfolding compare_identifier clash
nonempty-compare_identifier s t code c log = ground (
  arith,
  nonempty-snoc log.conflicts c,
  or-false (nonempty log.conflicts),
  or-true (nonempty log.conflicts),
)

has-link_messages :
    (e : Evidence) (a b : CorrelationProfile) (log : Log)
    → has e (link_messages a b log).evidence ≡ (
        has e log.evidence
        || (both_equal a.message_id b.original_message_id
            && (rank e == rank original_message_id_exact))
        || (both_equal a.original_message_id b.message_id
            && (rank e == rank original_message_id_exact))
        || (both_equal a.message_id b.message_id
            && not (both_equal a.message_id b.original_message_id)
            && not (both_equal a.original_message_id b.message_id)
            && (rank e == rank message_id_exact)))
unfolding link_messages
has-link_messages e a b log = ground (
  arith,
  has-append e original_message_id_exact log.evidence,
  has-append e message_id_exact log.evidence,
  or-false (has e log.evidence),
)

ruleset found_laws = (
  has-compare_identifier, has-compare_amounts, has-compare_references, has-compare_accounts,
  has-link_messages, has-nil, or-false, and-false, and-true, or_assoc,
)

module _ (a b : CorrelationProfile) where
  -- A message identifier links the two profiles.
  unfoldable pub linked : Bool
  linked =
      both_equal a.message_id b.original_message_id
      || both_equal a.original_message_id b.message_id
      || both_equal a.message_id b.message_id

  unfoldable pub clashes : Bool
  clashes =
      clash a.transaction_id b.transaction_id
      || clash a.end_to_end_id b.end_to_end_id
      || clash a.instruction_id b.instruction_id

  unfoldable pub same_money : Bool
  same_money = same_amount a.amount b.amount && both_equal a.currency b.currency

module _ (u : Unicode) (a b : CorrelationProfile) where
  nonempty-collect : nonempty (collect u a b).conflicts ≡ clashes a b
  unfolding collect clashes
  nonempty-collect = simp (
    conflicts-compare_accounts, conflicts-compare_references, conflicts-compare_amounts,
    conflicts-link_messages, nonempty-compare_identifier, or_assoc,
  )

  collect-message :
      (has original_message_id_exact (collect u a b).evidence
        || has message_id_exact (collect u a b).evidence)
      ≡ linked a b
  unfolding collect linked
  collect-message = simp found_laws (ground arith)

  collect-transaction :
      has transaction_id_exact (collect u a b).evidence
      ≡ both_equal a.transaction_id b.transaction_id
  unfolding collect
  collect-transaction = simp found_laws

  collect-end_to_end :
      has end_to_end_id_exact (collect u a b).evidence ≡ both_equal a.end_to_end_id b.end_to_end_id
  unfolding collect
  collect-end_to_end = simp found_laws

  collect-instruction :
      has instruction_id_exact (collect u a b).evidence
      ≡ both_equal a.instruction_id b.instruction_id
  unfolding collect
  collect-instruction = simp found_laws

  collect-amount : has amount_exact (collect u a b).evidence ≡ same_money a b
  unfolding collect same_money
  collect-amount = simp found_laws

  collect-currency : has currency_exact (collect u a b).evidence ≡ same_money a b
  unfolding collect same_money
  collect-currency = simp found_laws

  -- The status follows from the identifiers and the money: clashing identifiers are a conflict; else a
  -- linking message identifier or an equal transaction identifier correlates; else an equal
  -- end-to-end or instruction identifier, or an equal amount in one currency, makes it possible.
  pub correlate_profiles-status : (correlate_profiles u a b).status ≡ (
      if clashes a b
      then conflict
      else if linked a b || both_equal a.transaction_id b.transaction_id
      then correlated
      else if both_equal a.end_to_end_id b.end_to_end_id
          || both_equal a.instruction_id b.instruction_id
          || same_money a b
      then possible_correlation
      else unresolved)
  unfolding correlate_profiles status_of
  correlate_profiles-status = ground (
    arith, nonempty-collect, collect-message, collect-transaction, collect-end_to_end,
    collect-instruction, collect-amount, collect-currency,
  )

option_text_eq_refl : (s : Option Text) → option_text_eq s s ≡ true
option_text_eq_refl none = refl
option_text_eq_refl (some s) = text_eq_refl s

-- A status report on a message correlates with each transaction of the message, if the message has
-- an identifier, the report names it, and no identifier that both give differs.
pub correlate_profiles-report :
    (u : Unicode) (tx : PaymentTransaction) (message_id : Option Text)
    (report : LifecycleStatusReport) (status : TransactionStatus)
    → truthy message_id ≡ true
    → report.original_message_id ≡ message_id
    → clashes (profile_from_transaction tx message_id) (profile_from_status report status) ≡ false
    → (correlate_profiles u
        (profile_from_transaction tx message_id)
        (profile_from_status report status)).status
      ≡ correlated
unfolding linked both_equal profile_from_transaction profile_from_status
correlate_profiles-report u tx message_id report status there named quiet =
    correlate_profiles-status u (profile_from_transaction tx message_id)
      (profile_from_status report status)
    ∙ rw (quiet, named, there, option_text_eq_refl message_id) refl
