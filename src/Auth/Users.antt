-- ===== src/Auth/Users.antt =====
-- The user management of AuthService: setup, creation, update and deletion of users, and the guard
-- of the last administrator.
use blackgrid.Prelude.{
  ℕ, String, Bool, true, not, if◌then◌else◌, leb, ◌&&◌, ◌||◌, Option, none, some, [], ◌∷◌, any_of,
  length, Result, ok, err, suc, ◌==◌,
}
use text.Mathlib.Text.{◌==◌ as str_eq}
use blackgrid.Model.{Role, admin, User, string, role, bool}
use blackgrid.Auth.{
  Crypto, AuthService, AuditEntry, AuthStore, AuthQuery, count_users, create_user_row,
  get_user_by_id, count_enabled_admins, update_user_row, update_user_password, delete_user_row,
  AuthError, user_not_found, password_too_short, invalid_role, setup_already_done, last_admin,
  email_taken, database_error, hash_error, is_too_short, is_valid_role, is_admin, count_admins,
  find_user, update_user_where, delete_user_where, entry_by, system_entry, after_user,
}

abbrev pub email_in_use : String → AuthStore → Bool
email_in_use email s = any_of (λ (u : User). str_eq u.email email) s.users

abbrev pub new_user : ℕ → String → String → String → Role → Bool → User
new_user id email display_name hash r enabled = record {
  id = id;
  email = email;
  display_name = display_name;
  password_hash = hash;
  role = r;
  enabled = enabled;
  last_login_at = none;
}

abbrev pub insert_user : User → AuthStore → AuthStore
insert_user u s = record s { users = u ∷ s.users; next_id = suc s.next_id }

-- q.CreateUser: the unique email is the constraint of the table, whose violation has its own error
-- `duplicate` in the callers.
unfoldable pub create_row :
    AuthService
    → (AuthQuery → Bool)
    → AuthError
    → (ℕ → AuditEntry)
    → User
    → AuthStore
    → Result AuthError User × AuthStore
create_row svc fails duplicate entry u s =
    if fails create_user_row
    then (err (database_error create_user_row), s)
    else if email_in_use u.email s
    then (err duplicate, s)
    else (
      ok u,
      after_user svc (entry u.id) u.id
          (("action", string "created") ∷ ("email", string u.email) ∷ []) (insert_user u s),
    )

unfoldable pub create_first_admin :
    Crypto
    → AuthService
    → (AuthQuery → Bool)
    → String
    → String
    → String
    → AuthStore
    → Result AuthError User × AuthStore
unfolding create_row
create_first_admin cr svc fails email display_name password s =
    if fails count_users
    then (err (database_error count_users), s)
    else if not (length s.users == 0)
    then (err setup_already_done, s)
    else if is_too_short cr password
    then (err password_too_short, s)
    else (elim (cr.hash_password password) [
      | none ↦ (err hash_error, s)
      | some hash ↦
          create_row svc fails (database_error create_user_row) (system_entry "user.create")
            (new_user s.next_id (cr.lower_trim email) display_name hash admin true) s
    ])

pub record CreateUserInput : Type 0 where
  pub email : String
  pub display_name : String
  pub password : String
  pub role : Role
  pub enabled : Bool

unfoldable pub create_user :
    Crypto
    → AuthService
    → (AuthQuery → Bool)
    → ℕ
    → CreateUserInput
    → AuthStore
    → Result AuthError User × AuthStore
unfolding create_row
create_user cr svc fails actor p s =
    if not (is_valid_role p.role)
    then (err invalid_role, s)
    else if is_too_short cr p.password
    then (err password_too_short, s)
    else (elim (cr.hash_password p.password) [
      | none ↦ (err hash_error, s)
      | some hash ↦
          create_row svc fails email_taken (λ id. entry_by "user.create" "user" id actor)
            (new_user s.next_id (cr.lower_trim p.email) p.display_name hash p.role p.enabled) s
    ])

-- guardLastAdmin: `none` where the call may go on.
unfoldable pub guard_last_admin : (AuthQuery → Bool) → AuthStore → Option AuthError
guard_last_admin fails s =
    if fails count_enabled_admins
    then some (database_error count_enabled_admins)
    else if leb (count_admins s) 1
    then some last_admin
    else none

pub record UpdateUserInput : Type 0 where
  pub display_name : String
  pub role : Role
  pub enabled : Bool
  pub password : String

-- The assignments of UpdateUser and UpdateUserPassword.
abbrev pub updated_user : UpdateUserInput → User → User
updated_user p u = record u { display_name = p.display_name; role = p.role; enabled = p.enabled }

abbrev pub with_password : String → User → User
with_password hash u = record u { password_hash = hash }

abbrev pub after_update : AuthService → ℕ → User → AuthStore → Result AuthError User × AuthStore
after_update svc actor u s = (
  ok u,
  after_user svc (entry_by "user.update" "user" u.id actor) u.id
      (("action", string "updated")
        ∷ ("email", string u.email)
        ∷ ("enabled", bool u.enabled)
        ∷ ("role", role u.role)
        ∷ [])
      s,
)

-- The part of UpdateUser after the row is written: a blank password is kept.
unfoldable pub update_password :
    Crypto
    → AuthService
    → (AuthQuery → Bool)
    → ℕ
    → String
    → User
    → AuthStore
    → Result AuthError User × AuthStore
update_password cr svc fails actor password u s =
    if str_eq password ""
    then after_update svc actor u s
    else if is_too_short cr password
    then (err password_too_short, s)
    else (elim (cr.hash_password password) [
      | none ↦ (err hash_error, s)
      | some hash ↦
          if fails update_user_password
          then (err (database_error update_user_password), s)
          else after_update svc actor (with_password hash u)
              (update_user_where u.id (with_password hash) s)
    ])

unfoldable pub write_user :
    Crypto
    → AuthService
    → (AuthQuery → Bool)
    → ℕ
    → ℕ
    → UpdateUserInput
    → User
    → AuthStore
    → Result AuthError User × AuthStore
unfolding update_password
write_user cr svc fails actor id p existing s =
    if fails update_user_row
    then (err (database_error update_user_row), s)
    else update_password cr svc fails actor p.password (updated_user p existing)
        (update_user_where id (updated_user p) s)

abbrev pub would_lose_admin : UpdateUserInput → Bool
would_lose_admin p = not (is_admin p.role) || not p.enabled

unfoldable pub update_user :
    Crypto
    → AuthService
    → (AuthQuery → Bool)
    → ℕ
    → ℕ
    → UpdateUserInput
    → AuthStore
    → Result AuthError User × AuthStore
unfolding write_user guard_last_admin
update_user cr svc fails actor id p s =
    if fails get_user_by_id
    then (err (database_error get_user_by_id), s)
    else (elim (find_user id s) [
      | none ↦ (err user_not_found, s)
      | some existing ↦
          if not (is_valid_role p.role)
          then (err invalid_role, s)
          else if is_admin existing.role && would_lose_admin p
          then (elim (guard_last_admin fails s) [
            | some e ↦ (err e, s)
            | none ↦ write_user cr svc fails actor id p existing s
          ])
          else write_user cr svc fails actor id p existing s
    ])

unfoldable pub remove_user :
    AuthService → (AuthQuery → Bool) → ℕ → ℕ → AuthStore → Option AuthError × AuthStore
remove_user svc fails actor id s =
    if fails delete_user_row then (some (database_error delete_user_row), s) else (
      none,
      after_user svc (entry_by "user.delete" "user" id actor) id (("action", string "deleted") ∷ [])
          (delete_user_where id s),
    )

-- The result is the error, if there is one.
unfoldable pub delete_user :
    AuthService → (AuthQuery → Bool) → ℕ → ℕ → AuthStore → Option AuthError × AuthStore
unfolding remove_user guard_last_admin
delete_user svc fails actor id s =
    if fails get_user_by_id
    then (some (database_error get_user_by_id), s)
    else (elim (find_user id s) [
      | none ↦ (some user_not_found, s)
      | some existing ↦
          if is_admin existing.role
          then (elim (guard_last_admin fails s) [
            | some e ↦ (some e, s)
            | none ↦ remove_user svc fails actor id s
          ])
          else remove_user svc fails actor id s
    ])
