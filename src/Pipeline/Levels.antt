-- ===== src/Pipeline/Levels.antt =====
-- packages/analysis/pipeline.py: the readiness of a message beside those of its addresses.
use mathlib.Core.Path.{subst}
use payment_ops.Prelude.{
  ℕ, ◌≤◌, ◌≡◌, refl, ap, ◌∙◌, sym, Bool, true, false, Option, List, [], ◌∷◌, ◌++◌, String, ◌==◌,
  all, any, All, arith, map, if◌then◌else◌,
}
use payment_ops.Unicode.{Unicode}
use payment_ops.Domain.Payment.{
  AddressReadiness, ready, repairable, unresolved, PostalAddress, PaymentTransaction,
  PaymentMessage,
}
use payment_ops.Rules.{Rule}
use payment_ops.Rules.Address.{addresses}
use payment_ops.Addresses.{AddressAnalysis}
use payment_ops.Repair.{RepairCandidate}
use payment_ops.Repair.Document.{Documents}
use payment_ops.Iso.{Formats}
use payment_ops.Pipeline.{
  AnalysisAddress, Seen, nothing_seen, see, see_addresses, see_transactions, is_ready,
  is_unresolved, is_review, aggregate_readiness, Hashes, Request, result_of,
}

-- How far an address is from being ready.
abbrev pub distance : AddressReadiness → ℕ
distance ready = 0
distance repairable = 1
distance AddressReadiness.review_required = 2
distance unresolved = 3

abbrev pub is_level : AddressReadiness → AddressReadiness → Bool
is_level l m = distance m == distance l

ready-le : (l : AddressReadiness) → is_ready l ≡ true → distance l ≤ 0
ready-le ready h = omega arith
ready-le repairable h = cc
ready-le AddressReadiness.review_required h = cc
ready-le unresolved h = cc

all_ready : (ls : List AddressReadiness) → all is_ready ls ≡ true → All (λ l. distance l ≤ 0) ls
all_ready [] h = tt
all_ready (ready ∷ ls) h = (omega arith, all_ready ls h)
all_ready (repairable ∷ ls) h = cc
all_ready (AddressReadiness.review_required ∷ ls) h = cc
all_ready (unresolved ∷ ls) h = cc

any_level : (ls : List AddressReadiness) → All (λ l. distance l ≤ 3) ls
any_level [] = tt
any_level (ready ∷ ls) = (omega arith, any_level ls)
any_level (repairable ∷ ls) = (omega arith, any_level ls)
any_level (AddressReadiness.review_required ∷ ls) = (omega arith, any_level ls)
any_level (unresolved ∷ ls) = (omega arith, any_level ls)

none_unresolved :
    (ls : List AddressReadiness) → any is_unresolved ls ≡ false → All (λ l. distance l ≤ 2) ls
none_unresolved [] h = tt
none_unresolved (ready ∷ ls) h = (omega arith, none_unresolved ls h)
none_unresolved (repairable ∷ ls) h = (omega arith, none_unresolved ls h)
none_unresolved (AddressReadiness.review_required ∷ ls) h = (omega arith, none_unresolved ls h)
none_unresolved (unresolved ∷ ls) h = cc

none_review :
    (ls : List AddressReadiness)
    → any is_unresolved ls ≡ false
    → any is_review ls ≡ false
    → All (λ l. distance l ≤ 1) ls
none_review [] h g = tt
none_review (ready ∷ ls) h g = (omega arith, none_review ls h g)
none_review (repairable ∷ ls) h g = (omega arith, none_review ls h g)
none_review (AddressReadiness.review_required ∷ ls) h g = cc
none_review (unresolved ∷ ls) h g = cc

some_repairable :
    (ls : List AddressReadiness)
    → all is_ready ls ≡ false
    → any is_unresolved ls ≡ false
    → any is_review ls ≡ false
    → any (is_level repairable) ls ≡ true
some_repairable [] h g k = cc
some_repairable (ready ∷ ls) h g k = some_repairable ls h g k
some_repairable (repairable ∷ ls) h g k = refl
some_repairable (AddressReadiness.review_required ∷ ls) h g k = cc
some_repairable (unresolved ∷ ls) h g k = cc

unresolved-is_level :
    (ls : List AddressReadiness) → any is_unresolved ls ≡ any (is_level unresolved) ls
unresolved-is_level [] = refl
unresolved-is_level (ready ∷ ls) = unresolved-is_level ls
unresolved-is_level (repairable ∷ ls) = unresolved-is_level ls
unresolved-is_level (AddressReadiness.review_required ∷ ls) = unresolved-is_level ls
unresolved-is_level (unresolved ∷ ls) = refl

review-is_level :
    (ls : List AddressReadiness)
    → any is_review ls ≡ any (is_level AddressReadiness.review_required) ls
review-is_level [] = refl
review-is_level (ready ∷ ls) = review-is_level ls
review-is_level (repairable ∷ ls) = review-is_level ls
review-is_level (AddressReadiness.review_required ∷ ls) = refl
review-is_level (unresolved ∷ ls) = review-is_level ls

-- A level is one of the levels and none is farther from being ready; without levels it is
-- unresolved.
abbrev pub IsWorst : AddressReadiness → List AddressReadiness → Type 0
IsWorst worst [] = worst ≡ unresolved
IsWorst worst (l ∷ ls) =
    All (λ m. distance m ≤ distance worst) (l ∷ ls) × (any (is_level worst) (l ∷ ls) ≡ true)

first_ready :
    (l : AddressReadiness) (ls : List AddressReadiness)
    → all is_ready (l ∷ ls) ≡ true
    → any (is_level ready) (l ∷ ls) ≡ true
first_ready ready ls h = refl
first_ready repairable ls h = cc
first_ready AddressReadiness.review_required ls h = cc
first_ready unresolved ls h = cc

-- The level that three tests of the levels choose.
abbrev choose : Bool → Bool → Bool → AddressReadiness
choose a b c =
    if a
    then ready
    else if b
    then unresolved
    else if c
    then AddressReadiness.review_required
    else repairable

choose-IsWorst :
    (l : AddressReadiness) (ls : List AddressReadiness) (a b c : Bool)
    → all is_ready (l ∷ ls) ≡ a
    → any is_unresolved (l ∷ ls) ≡ b
    → any is_review (l ∷ ls) ≡ c
    → IsWorst (choose a b c) (l ∷ ls)
choose-IsWorst l ls true b c p q r = (all_ready (l ∷ ls) p, first_ready l ls p)
choose-IsWorst l ls false true c p q r =
    (any_level (l ∷ ls), sym (unresolved-is_level (l ∷ ls)) ∙ q)
choose-IsWorst l ls false false true p q r =
    (none_unresolved (l ∷ ls) q, sym (review-is_level (l ∷ ls)) ∙ r)
choose-IsWorst l ls false false false p q r =
    (none_review (l ∷ ls) q r, some_repairable (l ∷ ls) p q r)

aggregate_readiness-IsWorst : (ls : List AddressReadiness) → IsWorst (aggregate_readiness ls) ls
unfolding aggregate_readiness
aggregate_readiness-IsWorst [] = refl
aggregate_readiness-IsWorst (l ∷ ls) = choose-IsWorst l ls _ _ _ refl refl refl

abbrev levels_of : List AnalysisAddress → List AddressReadiness
levels_of xs = map (λ (a : AnalysisAddress). a.readiness) xs

map-append : (xs ys : List AnalysisAddress) → levels_of (xs ++ ys) ≡ levels_of xs ++ levels_of ys
map-append [] ys = refl
map-append (x ∷ xs) ys = ap (λ ls. x.readiness ∷ ls) (map-append xs ys)

-- The levels that were collected are those of the analyses that were collected.
abbrev IsSeen : Seen → Type 0
IsSeen seen = seen.overall_readiness ≡ levels_of seen.address_analyses

module _ (analyze : PostalAddress → AddressAnalysis) where
  see-IsSeen :
      (label : String) (a : AddressAnalysis) (seen : Seen) → IsSeen seen → IsSeen (see label a seen)
  unfolding see
  see-IsSeen label a seen h =
      ap (λ ls. ls ++ a.readiness ∷ []) h ∙ sym (map-append seen.address_analyses _)

  see_addresses-IsSeen :
      (pairs : List (String × PostalAddress)) (seen : Seen)
      → IsSeen seen
      → IsSeen (see_addresses analyze pairs seen)
  unfolding see_addresses
  see_addresses-IsSeen [] seen h = h
  see_addresses-IsSeen ((label, addr) ∷ rest) seen h =
      see_addresses-IsSeen rest (see label (analyze addr) seen)
        (see-IsSeen label (analyze addr) seen h)

  see_transactions-IsSeen :
      (txs : List PaymentTransaction) (seen : Seen)
      → IsSeen seen
      → IsSeen (see_transactions analyze txs seen)
  unfolding see_transactions
  see_transactions-IsSeen [] seen h = h
  see_transactions-IsSeen (tx ∷ txs) seen h =
      see_transactions-IsSeen txs (see_addresses analyze (addresses tx) seen)
        (see_addresses-IsSeen (addresses tx) seen h)

-- The readiness of a result is that of one of its address analyses, and none of them is farther
-- from being ready; without addresses it is unresolved.
pub result_of-IsWorst :
    (u : Unicode) (f : Formats) (docs : Documents) (h : Hashes)
    (analyze : PostalAddress → AddressAnalysis) (rules : List Rule) (request : Request)
    (message : PaymentMessage) (candidate : Option RepairCandidate)
    → IsWorst (result_of u f docs h analyze rules request message candidate).address_readiness (
        map
          (λ (a : AnalysisAddress). a.readiness)
          (result_of u f docs h analyze rules request message candidate).address_analyses)
unfolding result_of
result_of-IsWorst u f docs h analyze rules request message candidate =
    subst
      (λ ls.
        IsWorst
          (aggregate_readiness
            (see_transactions analyze message.transactions nothing_seen).overall_readiness)
          ls)
      (see_transactions-IsSeen analyze message.transactions nothing_seen refl)
      (aggregate_readiness-IsWorst
        (see_transactions analyze message.transactions nothing_seen).overall_readiness)
