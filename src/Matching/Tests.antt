-- ===== src/Matching/Tests.antt =====
-- Runs of `evaluate_pair` over whole numbers, and the theorems on them.
use payment_ops.Prelude.{find, ◌≡◌, refl, not, ◌&&◌, ◌||◌, some, [], codes, any, leb}
use payment_ops.Unicode.Ascii.{ascii}
use payment_ops.Matching.Samples.{whole, payment, invoice, policy}
use payment_ops.Matching.Published.{
  PolicyTables, start, created, publish_policy, get_published_policy, next_version, count_versions,
  is_policy, add_version, create_policy, get_published_policy-publish_policy,
}
use payment_ops.Matching.Records.{get_or}
use payment_ops.Matching.Evaluate.{fields, evaluate_pair}
use payment_ops.Matching.Safety.{is_match, conflicts, compared, evaluate_pair-is_match}

evaluate_pair-is_match_example :
    is_match (evaluate_pair whole ascii payment invoice policy).classification ≡ (
      not (any (λ f. conflicts whole policy (compared whole ascii payment invoice policy f)) fields)
      && (leb 85 (evaluate_pair whole ascii payment invoice policy).match_score
          || leb 60 (evaluate_pair whole ascii payment invoice policy).match_score))
unfolding get_or
evaluate_pair-is_match_example = evaluate_pair-is_match whole ascii payment invoice policy

-- One policy, created and not yet published.
abbrev tables : PolicyTables whole
tables = create_policy whole 4 1 (codes "Strict") (record { policies = []; versions = [] })

get_published_policy-publish_policy_example :
    get_published_policy whole 1 (some 4) (add_version whole 1 4 policy tables)
    ≡ record policy { version = 1 }
unfolding publish_policy create_policy is_policy find next_version count_versions
get_published_policy-publish_policy_example =
    get_published_policy-publish_policy whole 1 4 policy tables
      (add_version whole 1 4 policy tables) (created 4 1 (codes "Strict") start) refl
