-- ===== src/Users/Tests.antt =====
-- Runs of the user service on tables with one user, and the theorems on them.
use payment_ops.Prelude.{
  ◌≡◌, ◌≤◌, ◌≢◌, refl, true, none, some, [], ◌∷◌, codes, Text, text_eq, arith, find, update_where,
  ℕ, ◌+◌, ◌*◌, Bool, false, List,
}
use payment_ops.Unicode.Ascii.{ascii}
use payment_ops.Users.{
  Passwords, AppUser, Tables, operator, active, ok, succeed, attempt, authenticate, create_session,
  new_session, resolve_session, revoke_session, revoke_all_sessions, revoke_all, set_password,
  has_token, is_live, session_user, save_user,
}
use payment_ops.Users.Lockout.{guess, log_ins, log_ins-le, guess-unlock}
use payment_ops.Users.Bounded.{here, next, login, logout, IsBounded, Reach-IsBounded}
use payment_ops.Users.Sessions.{
  resolve_session-revoke_session, resolve_session-set_password, resolve_session-create_session,
}

-- Passwords and tokens are their own hashes.
abbrev plain : Passwords
plain = record { verify_password = text_eq; hash_session_token = λ token. token }

abbrev ann : AppUser
ann = record {
  id = 1;
  organization_id = 7;
  email = codes "ann@example.org";
  display_name = codes "Ann";
  password_hash = codes "secret";
  role = operator;
  status = active;
  failed_login_count = 3;
  locked_until = none;
  last_login_at = none;
}

abbrev token : Text
token = codes "token-1"

abbrev tables : Tables
tables = record { users = ann ∷ []; sessions = [] }

-- Ann has logged in at time 5.
abbrev logged_in : Tables
logged_in = (create_session plain 5 token ann tables).1

-- Log-ins with wrong passwords, and one with the right one.
abbrev tries : List (ℕ × Bool)
tries = (10, false) ∷ (20, false) ∷ (30, true) ∷ (20, false) ∷ []

log_ins-le_example : (log_ins tries ann).0 ≤ 5 * ((log_ins tries ann).1 + 1)
log_ins-le_example = log_ins-le 0 tries ann (omega arith) (ground arith)

Reach-IsBounded_example : IsBounded (
    revoke_session plain 9 token
      (authenticate ascii plain 3 (codes "Ann@example.org") (codes "x") tables).1)
Reach-IsBounded_example =
    Reach-IsBounded {u = ascii} {p = plain} {s = tables} (omega arith, tt)
      (next (next here (login 3 (codes "Ann@example.org") (codes "x"))) (logout 9 token))

resolve_session-revoke_session_example :
    (resolve_session plain 7 token (revoke_session plain 6 token logged_in)).0 ≡ none
resolve_session-revoke_session_example = resolve_session-revoke_session plain 6 7 token logged_in

-- Bob's session, which stays when Ann's are revoked.
abbrev bob : AppUser
bob = record ann { id = 2; email = codes "bob@example.org" }

abbrev bob_token : Text
bob_token = codes "token-2"

abbrev both_logged_in : Tables
both_logged_in =
    (create_session plain 6 bob_token bob (record logged_in { users = ann ∷ bob ∷ [] })).1

resolve_session-set_password_example : bob.id ≢ ann.id
unfolding set_password revoke_all_sessions revoke_all save_user create_session new_session
    resolve_session session_user has_token is_live find update_where text_eq
resolve_session-set_password_example =
    resolve_session-set_password plain 7 8 bob_token both_logged_in ann bob (codes "other") refl

resolve_session-create_session_example :
    (resolve_session plain 6 token (create_session plain 5 token ann tables).1).0 ≡ some ann
unfolding find
resolve_session-create_session_example =
    resolve_session-create_session plain 5 6 token tables ann refl refl refl (omega arith)

abbrev fresh : AppUser
fresh = record ann { failed_login_count = 0 }

guess-unlock_example : attempt 1_000_000_000 true (guess (1 ∷ 2 ∷ 3 ∷ 4 ∷ 5 ∷ []) fresh).1 ≡ (
  ok (succeed 1_000_000_000 (guess (1 ∷ 2 ∷ 3 ∷ 4 ∷ 5 ∷ []) fresh).1),
  succeed 1_000_000_000 (guess (1 ∷ 2 ∷ 3 ∷ 4 ∷ 5 ∷ []) fresh).1,
)
guess-unlock_example = guess-unlock 1 2 3 4 5 1_000_000_000 fresh refl refl (omega arith) refl
