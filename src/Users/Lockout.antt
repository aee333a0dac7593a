-- ===== src/Users/Lockout.antt =====
-- The lockout of `authenticate`: how often a password can be tried.
use payment_ops.Prelude.{
  ℕ, ◌+◌, ◌-◌, ◌*◌, ◌≤◌, ◌<◌, ◌≡◌, refl, ap, ◌∙◌, Bool, true, false, none, some, List, [], ◌∷◌,
  arith, All, if◌then◌else◌, leb,
}
use payment_ops.Users.{
  AppUser, Login, ok, err, temporarily_locked, invalid_credentials, max_failed_logins, lockout,
  is_locked, is_active, fail, succeed, attempt,
}

-- Log-ins with a wrong password at the given times: how many of them were checked against the
-- password, and the row after them.
unfoldable pub guess : List ℕ → AppUser → ℕ × AppUser
guess [] user = (0, user)
guess (now ∷ times) user =
    let (checked, after) = guess times (attempt now false user).1 in
    (if is_locked now user then checked else checked + 1, after)

-- Within one lockout period that starts at `start`: the guesses that are left.
guesses_left : ℕ → AppUser → ℕ
guesses_left start user = elim user.locked_until [
  | none ↦ max_failed_logins - user.failed_login_count
  | some until ↦
      if leb (start + lockout) until then 0 else max_failed_logins - user.failed_login_count
]

abbrev is_wrong : Login → ℕ
is_wrong outcome = elim outcome [ ok user ↦ 0 | err e ↦ elim e [ invalid_credentials ↦ 1 | _ ↦ 0 ] ]

abbrev is_right : Login → ℕ
is_right outcome = elim outcome [ ok user ↦ 1 | err e ↦ 0 ]

-- Log-ins at the given times, each with the right or with a wrong password: the wrong passwords that
-- were checked, and the log-ins that succeeded.
unfoldable pub log_ins : List (ℕ × Bool) → AppUser → ℕ × ℕ
log_ins [] user = (0, 0)
log_ins ((now, verified) ∷ tries) user =
    let (outcome, after) = attempt now verified user in
    let (wrong, right) = log_ins tries after in (is_wrong outcome + wrong, is_right outcome + right)

-- One log-in: a wrong password uses up one of the guesses that are left, or is refused; a right one
-- gives five at most.
guesses_left-attempt :
    (start now : ℕ) (verified : Bool) (user : AppUser)
    → user.failed_login_count < max_failed_logins
    → start ≤ now
    → now < start + lockout
    → ((attempt now verified user).1.failed_login_count < max_failed_logins)
      × (guesses_left start (attempt now verified user).1 + is_wrong (attempt now verified user).0
          ≤ guesses_left start user + max_failed_logins * is_right (attempt now verified user).0)
unfolding guesses_left attempt fail succeed is_locked
guesses_left-attempt start now verified user few from to = ground arith

log_ins-le_left :
    (start : ℕ) (tries : List (ℕ × Bool)) (user : AppUser)
    → user.failed_login_count < max_failed_logins
    → All (λ t. (start ≤ t.0) × (t.0 < start + lockout)) tries
    → (log_ins tries user).0 ≤ guesses_left start user + max_failed_logins * (log_ins tries user).1
unfolding log_ins
log_ins-le_left start [] user few within = omega arith
log_ins-le_left start ((now, verified) ∷ tries) user few within =
    let (few', left) = guesses_left-attempt start now verified user few within.0.0 within.0.1 in
    let rest = log_ins-le_left start tries (attempt now verified user).1 few' within.1 in
    omega arith

guesses_left-le : (start : ℕ) (user : AppUser) → guesses_left start user ≤ max_failed_logins
unfolding guesses_left
guesses_left-le start user = ground arith

-- Of the log-ins within fifteen minutes, with right and wrong passwords in any order and at times in
-- any order, at most five wrong passwords are checked, and five more for each log-in that succeeds
-- among them, if the account's failure counter is below five at the start.
pub log_ins-le :
    (start : ℕ) (tries : List (ℕ × Bool)) (user : AppUser)
    → user.failed_login_count < max_failed_logins
    → All (λ t. (start ≤ t.0) × (t.0 < start + lockout)) tries
    → (log_ins tries user).0 ≤ max_failed_logins * ((log_ins tries user).1 + 1)
log_ins-le start tries user few within =
    omega (arith, log_ins-le_left start tries user few within, guesses_left-le start user)

attempt-locked :
    (now : ℕ) (verified : Bool) (user : AppUser)
    → is_locked now user ≡ true
    → attempt now verified user ≡ (err temporarily_locked, user)
unfolding attempt
attempt-locked now verified user h = rw h

guess-fifth :
    (t1 t2 t3 t4 t5 : ℕ) (user : AppUser)
    → user.failed_login_count ≡ 0
    → user.locked_until ≡ none
    → ((guess (t1 ∷ t2 ∷ t3 ∷ t4 ∷ t5 ∷ []) user).1.locked_until ≡ some (t5 + lockout))
      × ((guess (t1 ∷ t2 ∷ t3 ∷ t4 ∷ t5 ∷ []) user).1.status ≡ user.status)
unfolding guess attempt fail is_locked
guess-fifth t1 t2 t3 t4 t5 user h l = ground arith

attempt-unlocked :
    (now : ℕ) (user : AppUser)
    → is_locked now user ≡ false
    → is_active user.status ≡ true
    → attempt now true user ≡ (ok (succeed now user), succeed now user)
unfolding attempt
attempt-unlocked now user h a = rw (h, a) refl

module _ (t1 t2 t3 t4 t5 later : ℕ) (user : AppUser) where
  -- Five wrong passwords in a row on an account without failures lock it: for fifteen minutes from
  -- the fifth, every attempt, also with the right password, is refused and changes nothing.
  pub guess-lock :
      (verified : Bool)
      → user.failed_login_count ≡ 0
      → user.locked_until ≡ none
      → later < t5 + lockout
      → attempt later verified (guess (t1 ∷ t2 ∷ t3 ∷ t4 ∷ t5 ∷ []) user).1
        ≡ (err temporarily_locked, (guess (t1 ∷ t2 ∷ t3 ∷ t4 ∷ t5 ∷ []) user).1)
  unfolding is_locked
  guess-lock verified h l soon =
      let (until, same) = guess-fifth t1 t2 t3 t4 t5 user h l in
      attempt-locked later verified _ (rw (until, is_locked) (ground arith))

  -- From fifteen minutes after the fifth wrong password in a row on, the right password of an active
  -- account is accepted again and clears the counter and the lock.
  pub guess-unlock :
      user.failed_login_count ≡ 0
      → user.locked_until ≡ none
      → t5 + lockout ≤ later
      → is_active user.status ≡ true
      → attempt later true (guess (t1 ∷ t2 ∷ t3 ∷ t4 ∷ t5 ∷ []) user).1 ≡ (
        ok (succeed later (guess (t1 ∷ t2 ∷ t3 ∷ t4 ∷ t5 ∷ []) user).1),
        succeed later (guess (t1 ∷ t2 ∷ t3 ∷ t4 ∷ t5 ∷ []) user).1,
      )
  unfolding is_locked
  guess-unlock h l late act =
      let (until, same) = guess-fifth t1 t2 t3 t4 t5 user h l in
      attempt-unlocked later _ (rw (until, is_locked) (ground arith)) (ap is_active same ∙ act)
