-- ===== src/Cases.antt =====
-- apps/api/paymentops_api/services/case_service.py: the operators' decisions on payment cases.
-- The three tables are lists of rows. A call that raises commits nothing.
pub mod Final
mod Tests
use payment_ops.Prelude.{
  ℕ, String, ◌≡◌, refl, Bool, true, false, not, ◌&&◌, Option, none, some, List, [], ◌∷◌, ◌++◌, Text,
  codes, text_eq, str_eq, ◌==◌, if◌then◌else◌, find, update_where,
}

pub data CaseStatus : Type 0 where
  new analyzed repair_proposed review_required approved rejected closed : CaseStatus

-- `==` on states, by their numbers.
abbrev pub rank : CaseStatus → ℕ
rank new = 0
rank analyzed = 1
rank repair_proposed = 2
rank review_required = 3
rank approved = 4
rank rejected = 5
rank closed = 6

pub record PaymentCase : Type 0 where
  pub case_id : Text
  pub organization_id : ℕ
  pub status : CaseStatus

pub record CaseAction : Type 0 where
  pub organization_id : ℕ
  pub case_id : Text
  pub action : String
  pub operator : Option Text
  pub note : Option Text
  pub created_at : ℕ

pub record AuditEvent : Type 0 where
  pub organization_id : ℕ
  pub case_id : Text
  -- What follows `case.` in the event's type.
  pub event_type : String
  pub user_identity : Option Text
  pub note : Option Text
  pub created_at : ℕ

pub record Store : Type 0 where
  pub cases : List PaymentCase
  pub actions : List CaseAction
  pub audit : List AuditEvent

pub data CaseError : Type 0 where
  case_not_found unsupported_action already_closed : CaseError

pub data Outcome : Type 0 where
  ok : Store → Outcome
  err : CaseError → Outcome

-- `_ALLOWED`
unfoldable pub allowed : String → Option CaseStatus
allowed action =
    if str_eq action "approve"
    then some approved
    else if str_eq action "reject"
    then some rejected
    else if str_eq action "close"
    then some closed
    else none

unfoldable pub is_final : CaseStatus → Bool
is_final approved = true
is_final rejected = true
is_final closed = true
is_final _ = false

unfoldable pub is_case : ℕ → Text → PaymentCase → Bool
is_case organization_id case_id c =
    (c.organization_id == organization_id) && text_eq c.case_id case_id

unfoldable pub get_case : ℕ → Text → Store → Option PaymentCase
get_case organization_id case_id s = find (is_case organization_id case_id) s.cases

abbrev pub move : CaseStatus → PaymentCase → PaymentCase
move status c = record c { status = status }

-- What is committed once the checks have passed.
unfoldable pub commit :
    ℕ → ℕ → Text → String → CaseStatus → Option Text → Option Text → Store → Store
commit now organization_id case_id action status operator note s = record {
  cases = update_where (is_case organization_id case_id) (move status) s.cases;
  actions =
      s.actions
      ++ record {
        organization_id = organization_id;
        case_id = case_id;
        action = action;
        operator = operator;
        note = note;
        created_at = now;
      }
        ∷ [];
  audit =
      s.audit
      ++ record {
        organization_id = organization_id;
        case_id = case_id;
        event_type = action;
        user_identity = operator;
        note = note;
        created_at = now;
      }
        ∷ [];
}

-- `case.status in (…) and case.status != new_status`
unfoldable pub is_blocked : CaseStatus → CaseStatus → Bool
is_blocked old new_status = is_final old && not (rank old == rank new_status)

unfoldable pub decide :
    ℕ
    → ℕ
    → Text
    → String
    → Option Text
    → Option Text
    → PaymentCase
    → Option CaseStatus
    → Store
    → Outcome
decide now org case_id action operator _ c none s = err unsupported_action
decide now org case_id action operator note c (some status) s =
    if is_blocked c.status status
    then err already_closed
    else ok (commit now org case_id action status operator note s)

unfoldable pub transition_case : ℕ → ℕ → Text → String → Option Text → Option Text → Store → Outcome
transition_case now org case_id action operator note s = elim (get_case org case_id s) [
  | none ↦ err case_not_found
  | some c ↦ decide now org case_id action operator note c (allowed action) s
]
