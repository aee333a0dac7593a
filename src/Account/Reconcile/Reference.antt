-- ===== src/Account/Reconcile/Reference.antt =====
-- The comparison of references in `reconcile_account_entry`.
use payment_ops.Prelude.{◌≡◌, refl, ◌∙◌, true, Option, none, some, ◌∷◌, ℕ, Text}
use payment_ops.Unicode.{Unicode}
use payment_ops.Domain.Account.{AccountReference, AccountEntry}
use payment_ops.Account.Identity.{LifecycleAccountContext}
use payment_ops.Matching.Normalize.{normalize_reference}
use payment_ops.Account.Reconcile.Codes.{reference_normalized_exact, has, agreement, agrees}
use payment_ops.Account.Reconcile.{same_reference, reconcile_account_entry}
use payment_ops.Account.Reconcile.Collected.{supports, collect-supports}

module _ (u : Unicode) (entry : AccountEntry) (account : Option AccountReference)
    (l : LifecycleAccountContext) (c d : ℕ) (s t : Text) where
  -- Two references that are not empty, and of which normalisation leaves nothing, count as exactly
  -- equal, although the texts may differ.
  pub reconcile-blank_references :
      entry.remittance_reference ≡ some (c ∷ s)
      → l.reference ≡ some (d ∷ t)
      → normalize_reference u (some (c ∷ s)) ≡ none
      → normalize_reference u (some (d ∷ t)) ≡ none
      → has reference_normalized_exact (reconcile_account_entry u entry account l).evidence ≡ true
  unfolding reconcile_account_entry supports agreement agrees same_reference
  reconcile-blank_references e f g h =
      collect-supports u entry account l reference_normalized_exact ∙ rw (e, f, g, h) refl
