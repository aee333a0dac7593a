-- ===== src/Users.antt =====
-- apps/api/paymentops_api/services/user_service.py: users, log-in with lockout, and sessions.
-- The tables are lists of rows; identifiers are numbers; a time is in microseconds. Every function
-- that commits takes the tables and returns them. What passwords.py computes (hashes, tokens) is
-- a parameter: the verdict of `verify_password`, and the hash of a token.
pub mod Lockout
pub mod Bounded
pub mod Sessions
mod Tests
use payment_ops.Prelude.{
  ℕ, ◌+◌, ◌*◌, Bool, true, false, not, ◌&&◌, Option, none, some, List, [], ◌∷◌, ◌++◌, Text, text_eq,
  leb, ltb, ◌==◌, if◌then◌else◌, find, update_where, is_none, any,
}
use payment_ops.Unicode.{Unicode, strip}

-- What the service takes from passwords.py.
pub record Passwords : Type 0 where
  pub verify_password : Text → Text → Bool
  pub hash_session_token : Text → Text

abbrev pub max_failed_logins : ℕ
max_failed_logins = 5

-- `timedelta(minutes=LOCKOUT_MINUTES)`
abbrev pub lockout : ℕ
lockout = 15 * 60 * 1_000_000

-- `timedelta(hours=SESSION_TTL_HOURS)`
abbrev pub session_ttl : ℕ
session_ttl = 8 * 60 * 60 * 1_000_000

pub data UserRole : Type 0 where
  admin operator viewer : UserRole

pub data UserStatus : Type 0 where
  active disabled : UserStatus

abbrev pub is_active : UserStatus → Bool
is_active active = true
is_active disabled = false

-- `AuthenticationError` with its message, and its subclass `AccountDisabledError`.
pub data LoginError : Type 0 where
  invalid_credentials temporarily_locked account_disabled : LoginError

pub record AppUser : Type 0 where
  pub id : ℕ
  pub organization_id : ℕ
  pub email : Text
  pub display_name : Text
  pub password_hash : Text
  pub role : UserRole
  pub status : UserStatus
  pub failed_login_count : ℕ
  pub locked_until : Option ℕ
  pub last_login_at : Option ℕ

pub record UserSession : Type 0 where
  pub user_id : ℕ
  pub organization_id : ℕ
  pub token_hash : Text
  pub expires_at : ℕ
  pub last_seen_at : Option ℕ
  pub revoked_at : Option ℕ

pub record Tables : Type 0 where
  pub users : List AppUser
  pub sessions : List UserSession

pub data Login : Type 0 where
  ok : AppUser → Login
  err : LoginError → Login

unfoldable pub normalize_email : Unicode → Text → Text
normalize_email u email = u.lower (strip email)

-- The columns' defaults: no failed log-ins, no lock, no log-in yet.
unfoldable pub new_user : Unicode → ℕ → ℕ → Text → Text → Text → UserRole → UserStatus → AppUser
new_user u id organization_id email display_name password_hash role status = record {
  id = id;
  organization_id = organization_id;
  email = normalize_email u email;
  display_name = display_name;
  password_hash = password_hash;
  role = role;
  status = status;
  failed_login_count = 0;
  locked_until = none;
  last_login_at = none;
}

-- `None` where the unique column `email` refuses the row.
unfoldable pub create_user : AppUser → Tables → Option Tables
create_user user t =
    if any (λ v. text_eq v.email user.email) t.users
    then none
    else some (record t { users = t.users ++ user ∷ [] })

unfoldable pub get_user_by_email : Unicode → Text → Tables → Option AppUser
get_user_by_email u email t = find (λ v. text_eq v.email (normalize_email u email)) t.users

-- The row of a user is written back under its key.
unfoldable pub save_user : AppUser → Tables → Tables
save_user user t = record t { users = update_where (λ v. v.id == user.id) (λ v. user) t.users }

-- `user.locked_until is not None and user.locked_until > now`
unfoldable pub is_locked : ℕ → AppUser → Bool
is_locked now user = elim user.locked_until [ none ↦ false | some until ↦ ltb now until ]

unfoldable pub fail : ℕ → AppUser → AppUser
fail now user =
    if leb max_failed_logins (user.failed_login_count + 1)
    then record user { failed_login_count = 0; locked_until = some (now + lockout) }
    else record user { failed_login_count = user.failed_login_count + 1 }

unfoldable pub succeed : ℕ → AppUser → AppUser
succeed now user = record user {
  failed_login_count = 0;
  locked_until = none;
  last_login_at = some now;
}

-- `authenticate` once the user is found: the outcome and the row after it.
unfoldable pub attempt : ℕ → Bool → AppUser → Login × AppUser
attempt now verified user =
    if is_locked now user
    then (err temporarily_locked, user)
    else if not verified
    then (err invalid_credentials, fail now user)
    else if not (is_active user.status)
    then (err account_disabled, user)
    else (ok (succeed now user), succeed now user)

unfoldable pub authenticate_user : Passwords → ℕ → Text → AppUser → Tables → Login × Tables
authenticate_user p now password user t =
    let (outcome, user') = attempt now (p.verify_password password user.password_hash) user in
    (outcome, save_user user' t)

-- The dummy verification for an unknown address changes no state.
unfoldable pub authenticate : Unicode → Passwords → ℕ → Text → Text → Tables → Login × Tables
authenticate u p now email password t = elim (get_user_by_email u email t) [
  | none ↦ (err invalid_credentials, t)
  | some user ↦ authenticate_user p now password user t
]

unfoldable pub new_session : ℕ → Text → AppUser → UserSession
new_session now token_hash user = record {
  user_id = user.id;
  organization_id = user.organization_id;
  token_hash = token_hash;
  expires_at = now + session_ttl;
  last_seen_at = some now;
  revoked_at = none;
}

-- The token comes from the random generator, and goes to the client once.
unfoldable pub create_session : Passwords → ℕ → Text → AppUser → Tables → (Text × ℕ) × Tables
create_session p now token user t = (
  (token, now + session_ttl),
  record t { sessions = t.sessions ++ new_session now (p.hash_session_token token) user ∷ [] },
)

unfoldable pub has_token : Passwords → Text → UserSession → Bool
has_token p token s = text_eq s.token_hash (p.hash_session_token token)

-- Not revoked and not expired.
unfoldable pub is_live : ℕ → UserSession → Bool
is_live now s = is_none s.revoked_at && not (leb s.expires_at now)

abbrev pub active_user : Option AppUser → Option AppUser
active_user none = none
active_user (some user) = if is_active user.status then some user else none

-- The user of a live session, if the user is there and active.
unfoldable pub session_user : ℕ → Option UserSession → Tables → Option AppUser
session_user now none t = none
session_user now (some s) t =
    if is_live now s then active_user (find (λ v. v.id == s.user_id) t.users) else none

unfoldable pub resolve_session : Passwords → ℕ → Text → Tables → Option AppUser × Tables
resolve_session p now token t = elim (session_user now (find (has_token p token) t.sessions) t) [
  | none ↦ (none, t)
  | some user ↦ (
    some user,
    record t {
      sessions =
          update_where (has_token p token) (λ s. record s { last_seen_at = some now }) t.sessions;
    },
  )
]

abbrev pub revoke : ℕ → UserSession → UserSession
revoke now s = if is_none s.revoked_at then record s { revoked_at = some now } else s

unfoldable pub revoke_session : Passwords → ℕ → Text → Tables → Tables
revoke_session p now token t = record t {
  sessions = update_where (has_token p token) (revoke now) t.sessions;
}

-- The first part is the number of sessions that were revoked.
unfoldable pub revoke_all : ℕ → ℕ → List UserSession → ℕ × List UserSession
revoke_all now user_id [] = (0, [])
revoke_all now user_id (s ∷ ss) =
    let (count, rest) = revoke_all now user_id ss in
    if (s.user_id == user_id) && is_none s.revoked_at
    then (count + 1, record s { revoked_at = some now } ∷ rest)
    else (count, s ∷ rest)

unfoldable pub revoke_all_sessions : ℕ → ℕ → Tables → ℕ × Tables
revoke_all_sessions now user_id t =
    let (count, rest) = revoke_all now user_id t.sessions in (count, record t { sessions = rest })

unfoldable pub set_password : ℕ → AppUser → Text → Tables → Tables
set_password now user password_hash t =
    (revoke_all_sessions now user.id (
      save_user
        (record user { password_hash = password_hash; failed_login_count = 0; locked_until = none })
        t)).1

unfoldable pub set_status : ℕ → AppUser → UserStatus → Tables → Tables
set_status now user active t = save_user (record user { status = active }) t
set_status now user disabled t =
    (revoke_all_sessions now user.id (save_user (record user { status = disabled }) t)).1

unfoldable pub set_role : AppUser → UserRole → Tables → Tables
set_role user role t = save_user (record user { role = role }) t
