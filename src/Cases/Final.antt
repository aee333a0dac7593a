-- ===== src/Cases/Final.antt =====
-- The effects of a decision on a case, and sequences of decisions.
use payment_ops.Prelude.{
  ℕ, String, ◌≡◌, refl, ◌∙◌, sym, ◌≢◌, ap, inl, inr, true, false, ◌+◌, Option, none, some, Text,
  text_eq_iff, ◌==◌, if◌then◌else◌, find_sound, find-update_where, Option-cases, Bool-cases, length,
  length-append, arith,
}
use payment_ops.Cases.{
  CaseStatus, rank, PaymentCase, Store, CaseError, ok, err, allowed, is_final, is_case, get_case,
  move, commit, is_blocked, decide, transition_case,
}

-- One decision that went through.
pub data Step (s : Store) : Store → Type 0 where
  decided :
      (now org : ℕ) (case_id : Text) (action : String) (operator note : Option Text) {s' : Store}
      → transition_case now org case_id action operator note s ≡ ok s'
      → Step s s'

pub data Reach (s : Store) : Store → Type 0 where
  here : Reach s s
  next : {t u : Store} → Reach s t → Step t u → Reach s u

module _ (now org : ℕ) (case_id : Text) (action : String) (operator note : Option Text)
    (s s' : Store) where
  -- A decision that goes through was on a case of the organisation, with a known action, and the
  -- case was not decided otherwise before; what it commits is the new state of the case, one action
  -- and one audit event.
  pub transition_case-ok :
      transition_case now org case_id action operator note s ≡ ok s'
      → (c : PaymentCase) × (status : CaseStatus) × (get_case org case_id s ≡ some c)
        × (allowed action ≡ some status)
        × (is_blocked c.status status ≡ false)
        × (s' ≡ commit now org case_id action status operator note s)
  unfolding transition_case decide
  transition_case-ok h = elim (Option-cases (get_case org case_id s)) [
    | inl absent ↦ absurd (refused (rw (absent, transition_case) at h))
    | inr (c, found) ↦
        let h' = rw (found, transition_case) at h in
        elim (Option-cases (allowed action)) [
          | inl unknown ↦ absurd (refused (rw (unknown, decide) at h'))
          | inr (status, known) ↦
              let h'' = rw (known, decide) at h' in
              (c, status, found, known, ground arith, ground arith)
        ]
  ]
    where
      refused : {e : CaseError} → err e ≡ ok s' → ⊥
      refused e = cc

is_case-move :
    (org : ℕ) (case_id : Text) (status : CaseStatus) (c : PaymentCase)
    → is_case org case_id (move status c) ≡ is_case org case_id c
unfolding is_case
is_case-move org case_id status c = refl

-- Two keys that one row has are one key.
is_case_unique :
    (o o' : ℕ) (i i' : Text) (c : PaymentCase)
    → is_case o i c ≡ true
    → is_case o' i' c ≡ true
    → (o ≡ o') × (i ≡ i')
unfolding is_case
is_case_unique o o' i i' c h h' = ground (arith, text_eq_iff c.case_id i, text_eq_iff c.case_id i')

get_case-commit :
    (now org o : ℕ) (case_id i : Text) (action : String) (status : CaseStatus)
    (operator note : Option Text) (s : Store)
    → get_case o i (commit now org case_id action status operator note s) ≡ elim (get_case o i s) [
      | none ↦ none
      | some c ↦ some (if is_case org case_id c then move status c else c)
    ]
unfolding get_case commit
get_case-commit now org o case_id i action status operator _ s =
    find-update_where (is_case o i) (is_case org case_id) (move status) s.cases
      (is_case-move o i status)

rank-injective : (a b : CaseStatus) → (rank a == rank b) ≡ true → a ≡ b
rank-injective a b h = ground arith

is_blocked-final :
    (old status : CaseStatus) → is_final old ≡ true → is_blocked old status ≡ false → status ≡ old
unfolding is_blocked
is_blocked-final old status fin free = ground (arith, rank-injective old status)

module _ (o org : ℕ) (i case_id : Text) (s : Store) (c c' : PaymentCase) (status : CaseStatus)
    (found : get_case o i s ≡ some c) (found' : get_case org case_id s ≡ some c') where
  -- A decision that names the row names its key.
  same_row : is_case org case_id c ≡ true → c' ≡ c
  unfolding get_case
  same_row h =
      let (e, f) = is_case_unique org o case_id i c h (find_sound (is_case o i) s.cases c found) in
      some_inj (sym found' ∙ rw (e, f) found)
    where
      some_inj : some c' ≡ some c → c' ≡ c
      some_inj e = cc

  move_decided :
      is_final c.status ≡ true
      → is_blocked c'.status status ≡ false
      → (if is_case org case_id c then move status c else c) ≡ c
  move_decided fin free = elim (Bool-cases (is_case org case_id c)) [
    | inl own ↦
        let same = is_blocked-final c.status status fin (rw (same_row own) at free) in
        rw (own, same) refl
    | inr other ↦ rw other refl
  ]

-- Once a case is approved, rejected or closed, no later decision, on any case, changes its state.
pub Step-final :
    {s t : Store} (o : ℕ) (i : Text) (c : PaymentCase)
    → Step s t
    → get_case o i s ≡ some c
    → is_final c.status ≡ true
    → get_case o i t ≡ some c
Step-final {s} o i c (decided now org case_id action operator note e) found fin =
    let (c', status, found', known, free, committed) =
      transition_case-ok now org case_id action operator note s _ e in
    rw committed (
      get_case-commit now org o case_id i action status operator note s
      ∙ rw found (ap some (move_decided o org i case_id s c c' status found found' fin free)))

-- Once a case is approved, rejected or closed, its row stays as it is through any decisions, on
-- this case or on others.
pub Reach-final :
    {s t : Store} (o : ℕ) (i : Text) (c : PaymentCase)
    → get_case o i s ≡ some c
    → is_final c.status ≡ true
    → Reach s t
    → get_case o i t ≡ some c
Reach-final o i c found fin here = found
Reach-final o i c found fin (next r step) =
    Step-final o i c step (Reach-final o i c found fin r) fin

other_org :
    (o org : ℕ) (i case_id : Text) (c : PaymentCase)
    → o ≢ org
    → is_case o i c ≡ true
    → is_case org case_id c ≡ false
unfolding is_case
other_org o org i case_id c ne h = ground arith

-- A decision leaves the cases of every other organisation alone, and appends one action and one audit event.
pub transition_case-others :
    (now org : ℕ) (case_id : Text) (action : String) (operator note : Option Text) (s s' : Store)
    (o : ℕ) (i : Text)
    → transition_case now org case_id action operator note s ≡ ok s'
    → o ≢ org
    → (get_case o i s' ≡ get_case o i s)
      × (length s'.actions ≡ length s.actions + 1)
      × (length s'.audit ≡ length s.audit + 1)
unfolding commit get_case
transition_case-others now org case_id action operator note s s' o i h ne =
    let (c, status, found, known, free, committed) =
      transition_case-ok now org case_id action operator note s s' h in
    rw committed (
      get_case-commit now org o case_id i action status operator note s
          ∙ kept status (get_case o i s) refl,
      length-append s.actions _,
      length-append s.audit _,
    )
  where
    kept :
        (status : CaseStatus) (r : Option PaymentCase)
        → get_case o i s ≡ r
        → elim r [
          | none ↦ none
          | some c ↦ some (if is_case org case_id c then move status c else c)
        ]
          ≡ r
    kept status none e = refl
    kept status (some c) e =
        rw (other_org o org i case_id c ne (find_sound (is_case o i) s.cases c e)) refl
