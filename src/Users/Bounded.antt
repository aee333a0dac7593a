-- ===== src/Users/Bounded.antt =====
-- Every operation of the user service as a step on the tables, and an invariant of them.
use payment_ops.Prelude.{
  ℕ, ◌<◌, ◌≡◌, Bool, some, [], ◌∷◌, arith, Text, All, All-append, All-update_where, All-find, find,
  ◌==◌, inl, inr, Option-cases, text_eq,
}
use payment_ops.Unicode.{Unicode}
use payment_ops.Users.{
  Passwords, AppUser, UserRole, UserStatus, Tables, max_failed_logins, active, disabled, new_user,
  create_user, get_user_by_email, save_user, fail, succeed, attempt, authenticate,
  authenticate_user, create_session, resolve_session, revoke_session, revoke_all_sessions,
  set_password, set_status, set_role, session_user, has_token, normalize_email,
}

-- A caller holds a row of the table.
abbrev pub Held : Tables → AppUser → Type 0
Held t user = find (λ v. v.id == user.id) t.users ≡ some user

-- One call of the service, on any input.
pub data Step (u : Unicode) (p : Passwords) (t : Tables) : Tables → Type 0 where
  create :
      (id organization_id : ℕ) (email name password_hash : Text) (role : UserRole)
      (status : UserStatus) {t' : Tables}
      → create_user (new_user u id organization_id email name password_hash role status) t ≡ some t'
      → Step u p t t'
  login : (now : ℕ) (email password : Text) → Step u p t (authenticate u p now email password t).1
  open_session :
      (now : ℕ) (token : Text) (user : AppUser) → Step u p t (create_session p now token user t).1
  resolve : (now : ℕ) (token : Text) → Step u p t (resolve_session p now token t).1
  logout : (now : ℕ) (token : Text) → Step u p t (revoke_session p now token t)
  logout_all : (now user_id : ℕ) → Step u p t (revoke_all_sessions now user_id t).1
  change_password :
      (now : ℕ) (user : AppUser) (hash : Text)
      → Held t user
      → Step u p t (set_password now user hash t)
  change_status :
      (now : ℕ) (user : AppUser) (s : UserStatus)
      → Held t user
      → Step u p t (set_status now user s t)
  change_role : (user : AppUser) (r : UserRole) → Held t user → Step u p t (set_role user r t)

abbrev pub IsBelow : AppUser → Type 0
IsBelow user = user.failed_login_count < max_failed_logins

-- The invariant: every failure counter is below the number that locks the account.
abbrev pub IsBounded : Tables → Type 0
IsBounded t = All IsBelow t.users

save_user-IsBounded :
    (user : AppUser) (t : Tables) → IsBelow user → IsBounded t → IsBounded (save_user user t)
unfolding save_user
save_user-IsBounded user t few h = All-update_where IsBelow _ (λ v. user) t.users (λ v _. few) h

attempt-IsBelow :
    (now : ℕ) (verified : Bool) (user : AppUser)
    → IsBelow user
    → IsBelow (attempt now verified user).1
unfolding attempt fail succeed
attempt-IsBelow now verified user h = ground arith

create_user-IsBounded :
    (user : AppUser) (t t' : Tables)
    → IsBelow user
    → create_user user t ≡ some t'
    → IsBounded t
    → IsBounded t'
unfolding create_user
create_user-IsBounded user t t' few e h =
    ground (arith, All-append IsBelow t.users (user ∷ []) h (few, tt))

login-IsBounded :
    (u : Unicode) (p : Passwords) (now : ℕ) (email password : Text) (t : Tables)
    → IsBounded t
    → IsBounded (authenticate u p now email password t).1
unfolding authenticate authenticate_user get_user_by_email normalize_email
login-IsBounded u p now email password t h =
    elim (Option-cases (find (λ v. text_eq v.email (normalize_email u email)) t.users)) [
      | inl absent ↦ rw (absent, authenticate) h
      | inr (user, found) ↦
          rw (found, authenticate)
            (save_user-IsBounded _ t
              (attempt-IsBelow now _ user (All-find IsBelow _ t.users user h found)) h)
    ]

resolve-IsBounded :
    (p : Passwords) (now : ℕ) (token : Text) (t : Tables)
    → IsBounded t
    → IsBounded (resolve_session p now token t).1
unfolding resolve_session
resolve-IsBounded p now token t h =
    elim (Option-cases (session_user now (find (has_token p token) t.sessions) t)) [
      | inl absent ↦ rw (absent, resolve_session) h
      | inr (user, found) ↦ rw (found, resolve_session) h
    ]

-- Every call of the service keeps every failure counter below five.
pub Step-IsBounded :
    {u : Unicode} {p : Passwords} {t t' : Tables} → Step u p t t' → IsBounded t → IsBounded t'
unfolding set_password set_status set_role revoke_all_sessions create_session revoke_session
    new_user
Step-IsBounded {t = t} (create id org email name hash role status e) h =
    create_user-IsBounded _ t _ (omega arith) e h
Step-IsBounded {u} {p} {t = t} (login now email password) h =
    login-IsBounded u p now email password t h
Step-IsBounded (open_session now token user) h = h
Step-IsBounded {u} {p} {t = t} (resolve now token) h = resolve-IsBounded p now token t h
Step-IsBounded (logout now token) h = h
Step-IsBounded (logout_all now user_id) h = h
Step-IsBounded {t = t} (change_password now user hash held) h =
    save_user-IsBounded _ t (omega arith) h
Step-IsBounded {t = t} (change_status now user active held) h =
    save_user-IsBounded _ t (All-find IsBelow _ t.users user h held) h
Step-IsBounded {t = t} (change_status now user disabled held) h =
    save_user-IsBounded _ t (All-find IsBelow _ t.users user h held) h
Step-IsBounded {t = t} (change_role user r held) h =
    save_user-IsBounded _ t (All-find IsBelow _ t.users user h held) h

-- The states that calls of the service lead to.
pub data Reach (u : Unicode) (p : Passwords) (s : Tables) : Tables → Type 0 where
  here : Reach u p s s
  next : {t t' : Tables} → Reach u p s t → Step u p t t' → Reach u p s t'

-- From tables in which every failure counter is below five, whatever calls are made, every counter
-- stays below five.
pub Reach-IsBounded :
    {u : Unicode} {p : Passwords} {s t : Tables} → IsBounded s → Reach u p s t → IsBounded t
Reach-IsBounded h here = h
Reach-IsBounded h (next r step) = Step-IsBounded step (Reach-IsBounded h r)
