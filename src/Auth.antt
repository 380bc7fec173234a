-- ===== src/Auth.antt =====
-- AuthService of internal/service/auth.go over the tables users, sessions and api_tokens
-- (internal/db/auth.sql.go): what its operations share. Whether a query fails is an argument, and a
-- query that fails changes nothing; bcrypt, SHA-256 and the functions on texts are a parameter.
pub mod Users
pub mod Sessions
pub mod Tokens
pub mod Cases
pub mod Admins
pub mod Runs
pub mod Access
pub mod Grants
pub mod Guard
mod Tests
use blackgrid.Prelude.{
  ℕ, String, Bool, true, false, not, if◌then◌else◌, ltb, leb, ◌&&◌, Option, none, some, List, [],
  ◌∷◌, ◌++◌, count_if, find_if, any_of, find_by, keep_if, update_by, remove_by, ◌==◌,
}
use text.Mathlib.Text.{◌==◌ as str_eq}
use blackgrid.Model.{
  Role, admin, operator, viewer, User, Session, ApiToken, Event, EventType, user_changed, Value,
  string,
}

-- `hash_password` is bcrypt.GenerateFromPassword, `matches` CompareHashAndPassword, `lower_trim`
-- strings.ToLower after strings.TrimSpace, and `byte_length` the built-in len.
pub record Crypto : Type 0 where
  pub hash_password : String → Option String
  pub matches : String → String → Bool
  pub sha256_hex : String → String
  pub lower_trim : String → String
  pub byte_length : String → ℕ

pub record AuthService : Type 0 where
  pub has_audit : Bool
  pub has_bus : Bool
  pub session_ttl_hours : ℕ

-- The fields of AuditParams that the service sets; `none` is a UUID that is not valid.
pub record AuditEntry : Type 0 where
  pub action : String
  pub entity_type : String
  pub entity_id : Option ℕ
  pub actor_type : String
  pub actor_user_id : Option ℕ

-- The tables, newest row first, the number that the next row gets, and what was published and
-- handed to the audit log, oldest first.
pub record AuthStore : Type 0 where
  pub users : List User
  pub sessions : List Session
  pub api_tokens : List ApiToken
  pub next_id : ℕ
  pub published : List Event
  pub audited : List AuditEntry

-- The queries, by their names.
pub data AuthQuery : Type 0 where
  count_users create_user_row get_user_by_email create_session_row update_user_last_login :
      AuthQuery
  get_session_by_hash get_user_by_id delete_session_row touch_session : AuthQuery
  get_api_token_by_hash touch_api_token count_enabled_admins : AuthQuery
  update_user_row update_user_password delete_user_row : AuthQuery
  create_api_token_row get_api_token_by_id delete_api_token_row : AuthQuery

pub data AuthError : Type 0 where
  user_not_found user_disabled invalid_credentials password_too_short invalid_role : AuthError
  setup_already_done last_admin token_expired token_not_found session_expired : AuthError
  session_not_found token_role_exceeds_owner email_taken : AuthError
  database_error : AuthQuery → AuthError
  hash_error random_error : AuthError

abbrev pub min_password_length : ℕ
min_password_length = 12

-- validatePassword, as the test that it fails.
abbrev pub is_too_short : Crypto → String → Bool
is_too_short cr password = ltb (cr.byte_length password) min_password_length

-- validateRole
abbrev pub is_valid_role : Role → Bool
is_valid_role (Role.other _) = false
is_valid_role _ = true

abbrev pub is_admin : Role → Bool
is_admin admin = true
is_admin _ = false

-- The map `rank` of roleAllows; a missing key reads as 0.
abbrev pub role_rank : Role → ℕ
role_rank viewer = 1
role_rank operator = 2
role_rank admin = 3
role_rank (Role.other _) = 0

abbrev pub role_allows : Role → Role → Bool
role_allows owner_role grant_role = leb (role_rank grant_role) (role_rank owner_role)

-- role = 'admin' AND enabled = true
abbrev pub is_enabled_admin : User → Bool
is_enabled_admin u = is_admin u.role && u.enabled

abbrev pub count_admins : AuthStore → ℕ
count_admins s = count_if is_enabled_admin s.users

abbrev pub user_id_of : User → ℕ
user_id_of u = u.id

abbrev pub find_user : ℕ → AuthStore → Option User
find_user id s = find_by user_id_of id s.users

abbrev pub update_user_where : ℕ → (User → User) → AuthStore → AuthStore
update_user_where id f s = record s { users = update_by user_id_of id f s.users }

-- DELETE FROM users, with ON DELETE CASCADE on sessions and tokens.
abbrev pub delete_user_where : ℕ → AuthStore → AuthStore
delete_user_where id s = record s {
  users = remove_by user_id_of id s.users;
  sessions = remove_by (λ (x : Session). x.user_id) id s.sessions;
  api_tokens = remove_by (λ (x : ApiToken). x.user_id) id s.api_tokens;
}

abbrev pub audit : AuthService → AuditEntry → AuthStore → AuthStore
audit svc a s = if svc.has_audit then record s { audited = s.audited ++ a ∷ [] } else s

abbrev pub publish_event : AuthService → Event → AuthStore → AuthStore
publish_event svc e s = if svc.has_bus then record s { published = s.published ++ e ∷ [] } else s

abbrev pub entry_by : String → String → ℕ → ℕ → AuditEntry
entry_by action entity_type id actor = record {
  action = action;
  entity_type = entity_type;
  entity_id = some id;
  actor_type = "user";
  actor_user_id = some actor;
}

abbrev pub system_entry : String → ℕ → AuditEntry
system_entry action id = record {
  action = action;
  entity_type = "user";
  entity_id = some id;
  actor_type = "system";
  actor_user_id = none;
}

abbrev pub user_event : ℕ → List (String × Value) → Event
user_event id payload = record {
  event_type = user_changed;
  object_type = "user";
  object_id = id;
  payload = payload;
}

-- What a call on a user sends after its query.
abbrev pub after_user : AuthService → AuditEntry → ℕ → List (String × Value) → AuthStore → AuthStore
after_user svc a id payload s = publish_event svc (user_event id payload) (audit svc a s)
