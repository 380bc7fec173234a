-- ===== src/Auth/Sessions.antt =====
-- The sessions of AuthService: Login, Logout and ResolveSession. The random bytes of a token are an
-- argument, `none` where rand.Read fails, and so is the time; a session lasts SessionTTLHours.
use blackgrid.Prelude.{
  ℕ, String, Bool, not, if◌then◌else◌, ltb, ◌||◌, ◌*◌, ◌+◌, Option, none, some, ◌∷◌, find_if,
  Result, ok, err, suc, update_by, remove_by, is_some,
}
use text.Mathlib.Text.{◌==◌ as str_eq}
use blackgrid.Model.{User, Session}
use blackgrid.Auth.{
  Crypto, AuthService, AuditEntry, AuthStore, AuthQuery, get_user_by_email, create_session_row,
  update_user_last_login, get_session_by_hash, get_user_by_id, delete_session_row, touch_session,
  AuthError, user_disabled, invalid_credentials, session_expired, session_not_found, database_error,
  random_error, find_user, update_user_where, entry_by, system_entry, audit,
}

abbrev pub find_email : String → AuthStore → Option User
find_email email s = find_if (λ (u : User). str_eq u.email email) s.users

abbrev pub find_session : String → AuthStore → Option Session
find_session hash s = find_if (λ (x : Session). str_eq x.session_hash hash) s.sessions

abbrev pub session_id_of : Session → ℕ
session_id_of x = x.id

abbrev pub seconds_per_hour : ℕ
seconds_per_hour = 3600

abbrev pub new_session : ℕ → ℕ → String → ℕ → Session
new_session id user hash expires = record {
  id = id;
  user_id = user;
  session_hash = hash;
  expires_at = expires;
  last_seen_at = none;
}

abbrev pub insert_session : Session → AuthStore → AuthStore
insert_session x s = record s { sessions = x ∷ s.sessions; next_id = suc s.next_id }

-- An error of UpdateUserLastLogin is ignored.
abbrev pub set_last_login : (AuthQuery → Bool) → ℕ → ℕ → AuthStore → AuthStore
set_last_login fails now id s =
    if fails update_user_last_login
    then s
    else update_user_where id (λ u. record u { last_login_at = some now }) s

-- q.CreateSession: the hash is unique in the table.
unfoldable pub open_session :
    AuthService
    → (AuthQuery → Bool)
    → ℕ
    → User
    → String
    → String
    → AuthStore
    → Result AuthError (User × String) × AuthStore
open_session svc fails now user token hash s =
    if fails create_session_row || is_some (find_session hash s)
    then (err (database_error create_session_row), s)
    else (
      ok (user, token),
      audit svc (entry_by "auth.login_success" "user" user.id user.id) (
          set_last_login fails now user.id (
            insert_session
              (new_session s.next_id user.id hash (now + svc.session_ttl_hours * seconds_per_hour))
              s)),
    )

unfoldable pub login :
    Crypto
    → AuthService
    → (AuthQuery → Bool)
    → ℕ
    → Option String
    → String
    → String
    → AuthStore
    → Result AuthError (User × String) × AuthStore
unfolding open_session
login cr svc fails now random email password s =
    if fails get_user_by_email
    then (err (database_error get_user_by_email), s)
    else (elim (find_email (cr.lower_trim email) s) [
      | none ↦ (err invalid_credentials, s)
      | some user ↦
          if not (cr.matches user.password_hash password)
          then (err invalid_credentials, audit svc (system_entry "auth.login_failure" user.id) s)
          else if not user.enabled
          then (err user_disabled, s)
          else (elim random [
            | none ↦ (err random_error, s)
            | some token ↦ open_session svc fails now user token (cr.sha256_hex token) s
          ])
    ])

-- The entry of Logout: the zero user where q.GetUserByID fails.
abbrev pub logout_entry : (AuthQuery → Bool) → Session → AuthStore → AuditEntry
logout_entry fails x s =
    let who =
      (if fails get_user_by_id
        then none
        else (elim (find_user x.user_id s) [ none ↦ none | some u ↦ some u.id ])) in
    record {
      action = "auth.logout";
      entity_type = "user";
      entity_id = who;
      actor_type = "user";
      actor_user_id = who;
    }

unfoldable pub logout :
    Crypto → AuthService → (AuthQuery → Bool) → String → AuthStore → Option AuthError × AuthStore
logout cr svc fails token s =
    if fails get_session_by_hash
    then (some (database_error get_session_by_hash), s)
    else (elim (find_session (cr.sha256_hex token) s) [
      | none ↦ (none, s)
      | some x ↦
          if fails delete_session_row then (some (database_error delete_session_row), s) else (
            none,
            audit svc (logout_entry fails x s)
                (record s { sessions = remove_by session_id_of x.id s.sessions }),
          )
    ])

-- The goroutine of TouchSession, at the time of the call; its error is logged.
abbrev pub touch : (AuthQuery → Bool) → ℕ → ℕ → AuthStore → AuthStore
touch fails now id s = if fails touch_session then s else record s {
  sessions = update_by session_id_of id (λ x. record x { last_seen_at = some now }) s.sessions;
}

unfoldable pub resolve_session :
    Crypto
    → (AuthQuery → Bool)
    → ℕ
    → String
    → AuthStore
    → Result AuthError (User × Session) × AuthStore
resolve_session cr fails now token s =
    if fails get_session_by_hash
    then (err (database_error get_session_by_hash), s)
    else (elim (find_session (cr.sha256_hex token) s) [
      | none ↦ (err session_not_found, s)
      | some x ↦
          if ltb x.expires_at now
          then (err session_expired, s)
          else if fails get_user_by_id
          then (err (database_error get_user_by_id), s)
          else (elim (find_user x.user_id s) [
            | none ↦ (err (database_error get_user_by_id), s)
            | some user ↦
                if not user.enabled
                then (err user_disabled, s)
                else (ok (user, x), touch fails now x.id s)
          ])
    ])
