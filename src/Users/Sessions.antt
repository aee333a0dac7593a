-- ===== src/Users/Sessions.antt =====
-- Sessions: the tokens of apps/api/paymentops_api/services/user_service.py over time.
use payment_ops.Prelude.{
  ℕ, ◌+◌, ◌<◌, ◌≡◌, refl, ◌∙◌, sym, ◌≢◌, Bool, true, false, Option, none, some, List, [], ◌∷◌,
  arith, Text, find, find_sound, find-append, find-update_where, text_eq_refl, update_where, ◌==◌,
  if◌then◌else◌, Option-cases, inl, inr, Bool-cases,
}
use payment_ops.Users.{
  Passwords, AppUser, UserSession, Tables, disabled, is_active, has_token, is_live, session_user,
  resolve_session, revoke, revoke_session, revoke_all, revoke_all_sessions, set_password,
  set_status, create_session, new_session, session_ttl,
}

-- What `resolve_session` answers, without the row that it touches.
resolve_session-answer :
    (p : Passwords) (now : ℕ) (token : Text) (t : Tables)
    → (resolve_session p now token t).0 ≡ session_user now (find (has_token p token) t.sessions) t
unfolding resolve_session
resolve_session-answer p now token t =
    elim (Option-cases (session_user now (find (has_token p token) t.sessions) t)) [
      | inl absent ↦ rw (absent, resolve_session) refl
      | inr (user, found) ↦ rw (found, resolve_session) refl
    ]

session_user-some :
    (now : ℕ) (o : Option UserSession) (t : Tables) (user : AppUser)
    → session_user now o t ≡ some user
    → (s : UserSession) × (o ≡ some s)
      × (is_live now s ≡ true)
      × (find (λ v. v.id == s.user_id) t.users ≡ some user)
      × (is_active user.status ≡ true)
unfolding session_user
session_user-some now none t user h = cc
session_user-some now (some s) t user h = (s, refl, ground arith, ground arith, ground arith)

-- A token that is answered with a user belongs to a session that is neither revoked nor expired,
-- of a user who is in the table under the session's key and active.
pub resolve_session-some :
    (p : Passwords) (now : ℕ) (token : Text) (t : Tables) (user : AppUser)
    → (resolve_session p now token t).0 ≡ some user
    → (s : UserSession) × (find (has_token p token) t.sessions ≡ some s)
      × (s.revoked_at ≡ none)
      × (now < s.expires_at)
      × (user.id ≡ s.user_id)
      × (is_active user.status ≡ true)
unfolding is_live
resolve_session-some p now token t user h =
    let (s, found, live, held, act) =
      session_user-some now (find (has_token p token) t.sessions) t user
        (sym (resolve_session-answer p now token t) ∙ h) in
    let same = find_sound (λ (v : AppUser). v.id == s.user_id) t.users user held in
    (s, found, ground arith, ground arith, ground arith, act)

is_live-revoke : (now later : ℕ) (s : UserSession) → is_live later (revoke now s) ≡ false
unfolding is_live
is_live-revoke now later s = ground arith

session_user-none : (now : ℕ) (t : Tables) → session_user now none t ≡ none
unfolding session_user
session_user-none now t = refl

session_user-dead :
    (now : ℕ) (s : UserSession) (t : Tables)
    → is_live now s ≡ false
    → session_user now (some s) t ≡ none
unfolding session_user
session_user-dead now s t h = rw h

has_token-revoke :
    (p : Passwords) (now : ℕ) (token : Text) (s : UserSession)
    → has_token p token (revoke now s) ≡ has_token p token s
unfolding has_token
has_token-revoke p now token s = ground arith

-- Once a token is revoked, it stands for nobody at any later time.
pub resolve_session-revoke_session :
    (p : Passwords) (now later : ℕ) (token : Text) (t : Tables)
    → (resolve_session p later token (revoke_session p now token t)).0 ≡ none
unfolding revoke_session
resolve_session-revoke_session p now later token t =
    resolve_session-answer p later token (revoke_session p now token t)
    ∙ rw
        (find-update_where (has_token p token) (has_token p token) (revoke now) t.sessions
          (has_token-revoke p now token))
        (revoked (find (has_token p token) t.sessions) refl)
  where
    revoked :
        (o : Option UserSession)
        → find (has_token p token) t.sessions ≡ o
        → session_user later
            (elim o [
              | none ↦ none
              | some s ↦ some (if has_token p token s then revoke now s else s)
            ])
            (record t { sessions = update_where (has_token p token) (revoke now) t.sessions })
          ≡ none
    revoked none e = session_user-none later _
    revoked (some s) e =
        rw (find_sound (has_token p token) t.sessions s e)
          (session_user-dead later (revoke now s) _ (is_live-revoke now later s))

-- What a look-up finds after all sessions of a user were revoked.
find-revoke_all :
    (now id : ℕ) (q : UserSession → Bool) (ss : List UserSession)
    → ((s : UserSession) → q (revoke now s) ≡ q s)
    → find q (revoke_all now id ss).1 ≡ elim (find q ss) [
      | none ↦ none
      | some s ↦ some (if s.user_id == id then revoke now s else s)
    ]
unfolding find revoke_all
find-revoke_all now id q [] same = refl
find-revoke_all now id q (s ∷ ss) same = ground (arith, find-revoke_all now id q ss same, same s)

-- The user of a session that was among those revoked for `id` is not `id`.
session_user-others :
    (now later id : ℕ) (s : UserSession) (t : Tables) (user : AppUser)
    → session_user later (some (if s.user_id == id then revoke now s else s)) t ≡ some user
    → user.id ≢ id
session_user-others now later id s t user h = elim (Bool-cases (s.user_id == id)) [
  | inl own ↦
      let gone = session_user-dead later (revoke now s) t (is_live-revoke now later s) in
      let h' = rw own at h in cc (gone, h')
  | inr other ↦
      let h' = rw other at h in
      let (s', e, live, held, act) = session_user-some later (some s) t user h' in
      let same = find_sound (λ (v : AppUser). v.id == s'.user_id) t.users user held in ground arith
]

module _ (p : Passwords) (now later id : ℕ) (token : Text) (t : Tables) where
  -- Once all sessions of a user are revoked, no token stands for that user.
  pub resolve_session-revoke_all_sessions :
      (user : AppUser)
      → (resolve_session p later token (revoke_all_sessions now id t).1).0 ≡ some user
      → user.id ≢ id
  unfolding revoke_all_sessions
  resolve_session-revoke_all_sessions user h = others (find (has_token p token) t.sessions) (
      rw (find-revoke_all now id (has_token p token) t.sessions (has_token-revoke p now token)) at
        (sym (resolve_session-answer p later token (revoke_all_sessions now id t).1) ∙ h))
    where
      others :
          (o : Option UserSession)
          → session_user later
              (elim o [ none ↦ none | some s ↦ some (if s.user_id == id then revoke now s else s) ])
              (revoke_all_sessions now id t).1
            ≡ some user
          → user.id ≢ id
      others none e = cc (session_user-none later (revoke_all_sessions now id t).1)
      others (some s) e = session_user-others now later id s _ user e

module _ (p : Passwords) (now later : ℕ) (token : Text) (t : Tables) (user v : AppUser) where
  -- After a change of a user's password, no token stands for the user any more, whenever it was
  -- issued.
  pub resolve_session-set_password :
      (hash : Text)
      → (resolve_session p later token (set_password now user hash t)).0 ≡ some v
      → v.id ≢ user.id
  unfolding set_password
  resolve_session-set_password hash =
      resolve_session-revoke_all_sessions p now later user.id token _ v

  -- After an account is disabled, no token stands for the user any more, whenever it was issued.
  pub resolve_session-set_status :
      (resolve_session p later token (set_status now user disabled t)).0 ≡ some v → v.id ≢ user.id
  unfolding set_status
  resolve_session-set_status = resolve_session-revoke_all_sessions p now later user.id token _ v

has_token-new_session :
    (p : Passwords) (now : ℕ) (token : Text) (user : AppUser)
    → has_token p token (new_session now (p.hash_session_token token) user) ≡ true
unfolding has_token new_session
has_token-new_session p now token user = text_eq_refl (p.hash_session_token token)

-- The token of a new session stands for the user who logged in, until it expires, if the user is
-- in the table and active and no other session has the token's hash.
pub resolve_session-create_session :
    (p : Passwords) (now later : ℕ) (token : Text) (t : Tables) (user : AppUser)
    → find (has_token p token) t.sessions ≡ none
    → find (λ v. v.id == user.id) t.users ≡ some user
    → is_active user.status ≡ true
    → later < now + session_ttl
    → (resolve_session p later token (create_session p now token user t).1).0 ≡ some user
unfolding create_session session_user is_live new_session
resolve_session-create_session p now later token t user fresh held act soon =
    resolve_session-answer p later token (create_session p now token user t).1
    ∙ rw
        (find-append (has_token p token) t.sessions
          (new_session now (p.hash_session_token token) user) fresh
          (has_token-new_session p now token user))
        (rw held (ground arith))
