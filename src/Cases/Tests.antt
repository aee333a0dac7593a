-- ===== src/Cases/Tests.antt =====
-- Decisions on the cases of two organisations, and the theorems on them.
use payment_ops.Prelude.{◌≡◌, refl, none, some, [], ◌∷◌, codes, text_eq, find}
use payment_ops.Cases.{
  PaymentCase, Store, ok, review_required, approved, allowed, is_final, is_case, get_case,
  is_blocked, commit, decide, transition_case,
}
use payment_ops.Cases.Final.{decided, here, next, Reach-final}

abbrev open_case : PaymentCase
open_case = record { case_id = codes "C-1"; organization_id = 1; status = review_required }

abbrev approved_case : PaymentCase
approved_case = record { case_id = codes "C-2"; organization_id = 1; status = approved }

-- The same key as the open case, in another organisation.
abbrev foreign_case : PaymentCase
foreign_case = record { case_id = codes "C-1"; organization_id = 2; status = review_required }

abbrev store : Store
store = record { cases = open_case ∷ approved_case ∷ foreign_case ∷ []; actions = []; audit = [] }

abbrev after_approval : Store
after_approval = commit 5 1 (codes "C-1") "approve" approved none none store

approves : transition_case 5 1 (codes "C-1") "approve" none none store ≡ ok after_approval
unfolding transition_case get_case find is_case text_eq decide allowed is_blocked is_final
approves = refl

Reach-final_example : get_case 1 (codes "C-2") after_approval ≡ some approved_case
unfolding get_case find is_case text_eq is_final
Reach-final_example =
    Reach-final {s = store} {t = after_approval} 1 (codes "C-2") approved_case refl refl
      (next here (decided 5 1 (codes "C-1") "approve" none none approves))
