-- ===== src/Auth/Tests.antt =====
-- AuthService at concrete inputs.
use blackgrid.Prelude.{
  Bool, true, false, ◌≡◌, ◌≤◌, refl, none, some, List, [], ◌∷◌, if◌then◌else◌, ok, arith,
}
use text.Mathlib.Text.{◌==◌ as str_eq}
use blackgrid.Model.{User, Session, ApiToken, admin, operator, viewer}
use blackgrid.Auth.{Crypto, AuthService, AuthStore, AuthQuery, count_admins, role_rank}
use blackgrid.Auth.Users.{
  guard_last_admin, CreateUserInput, UpdateUserInput, updated_user, new_user, create_first_admin,
  create_row, update_user, write_user, update_password,
}
use blackgrid.Auth.Sessions.{login, open_session, resolve_session}
use blackgrid.Auth.Tokens.{
  CreateApiTokenInput, create_api_token, create_token_row, new_token, resolve_api_token,
}
use blackgrid.Auth.Runs.{
  creates_user, updates_user, deletes_user, AuthInvocation, auth_run, setup-auth_run-Safe,
}
use blackgrid.Auth.Access.{login-resolve_session}
use blackgrid.Auth.Guard.{guard_last_admin-write_user}
use blackgrid.Auth.Grants.{create_api_token-resolve_api_token, update_user-resolve_api_token}

-- A hash that is the text itself.
abbrev plain : Crypto
plain = record {
  hash_password = some;
  matches = λ hash password. str_eq hash password;
  sha256_hex = λ token. token;
  lower_trim = λ email. email;
  byte_length = λ password. if str_eq password "short" then 5 else 14;
}

abbrev auth : AuthService
auth = record { has_audit = true; has_bus = true; session_ttl_hours = 168 }

abbrev works : AuthQuery → Bool
works _ = false

abbrev nothing : AuthStore
nothing = record {
  users = [];
  sessions = [];
  api_tokens = [];
  next_id = 0;
  published = [];
  audited = [];
}

abbrev ann : User
ann = new_user 0 "ann@x" "Ann" "ann's password" admin true

abbrev bob_input : CreateUserInput
bob_input = record {
  email = "bob@x";
  display_name = "Bob";
  password = "bob's password";
  role = operator;
  enabled = true;
}

abbrev demotion : UpdateUserInput
demotion = record { display_name = "Bob"; role = viewer; enabled = true; password = "" }

abbrev calls : List AuthInvocation
calls =
    record { call = creates_user 0 bob_input; fails = works; now = 1 }
    ∷ record { call = updates_user 0 0 demotion; fails = works; now = 2 }
    ∷ record { call = deletes_user 0 0; fails = works; now = 3 }
    ∷ []

setup-auth_run-Safe_example :
    1
    ≤ count_admins (
        auth_run plain auth calls
          (create_first_admin plain auth works "ann@x" "Ann" "ann's password" nothing).1)
unfolding create_first_admin create_row
setup-auth_run-Safe_example =
    setup-auth_run-Safe plain auth works "ann@x" "Ann" "ann's password" nothing ann calls refl refl

abbrev bob : User
bob = new_user 1 "bob@x" "Bob" "bob's password" operator true

abbrev two_users : AuthStore
two_users = record nothing { users = bob ∷ ann ∷ []; next_id = 2 }

abbrev logged_in : AuthStore
logged_in = (login plain auth works 10 (some "raw") "bob@x" "bob's password" two_users).1

login_run :
    login plain auth works 10 (some "raw") "bob@x" "bob's password" two_users
    ≡ (ok (bob, "raw"), logged_in)
unfolding login open_session
login_run = refl

login-resolve_session_example :
    (u : User) × (x : Session) × ((resolve_session plain works 600 "raw" logged_in).0 ≡ ok (u, x))
    × (u.id ≡ 1)
    × (u.role ≡ operator)
login-resolve_session_example =
    login-resolve_session plain auth works works 10 600 (some "raw") "bob@x" "bob's password"
      two_users logged_in bob "raw" (ground arith) login_run (omega arith) refl refl

abbrev token_input : CreateApiTokenInput
token_input = record { user_id = 1; name = "ci"; role = operator; expires_at = some 900 }

abbrev bob_token : ApiToken
bob_token = new_token 2 token_input "bg_c0ffee"

abbrev with_token : AuthStore
with_token = (create_api_token plain auth works 0 (some "c0ffee") token_input two_users).1

token_run :
    create_api_token plain auth works 0 (some "c0ffee") token_input two_users
    ≡ (ok ("bg_c0ffee", bob_token), with_token)
unfolding create_api_token create_token_row
token_run = refl

create_api_token-resolve_api_token_example :
    ((resolve_api_token plain works 20 "bg_c0ffee" with_token).0 ≡ ok (bob, bob_token))
    × (operator ≡ operator)
    × (role_rank operator ≤ role_rank operator)
create_api_token-resolve_api_token_example =
    create_api_token-resolve_api_token plain auth works works 0 20 (some "c0ffee") token_input
      two_users with_token bob "bg_c0ffee" bob_token token_run refl refl refl refl refl

abbrev demoted : AuthStore
demoted = (update_user plain auth works 0 1 demotion with_token).1

demoted_run :
    update_user plain auth works 0 1 demotion with_token ≡ (ok (updated_user demotion bob), demoted)
unfolding update_user write_user update_password create_api_token create_token_row
demoted_run = refl

update_user-resolve_api_token_example :
    (w : User) × ((resolve_api_token plain works 30 "bg_c0ffee" demoted).0 ≡ ok (w, bob_token))
    × (w.role ≡ viewer)
update_user-resolve_api_token_example =
    update_user-resolve_api_token plain auth works works 0 30 "bg_c0ffee" demotion with_token
      demoted bob (updated_user demotion bob) bob_token
      (create_api_token-resolve_api_token plain auth works works 0 30 (some "c0ffee") token_input
        two_users with_token bob "bg_c0ffee" bob_token token_run refl refl refl refl refl).0
      demoted_run refl refl

abbrev short_input : UpdateUserInput
short_input = record { display_name = "Bob"; role = admin; enabled = true; password = "short" }

abbrev carl : User
carl = new_user 1 "carl@x" "Carl" "carl's password" admin true

abbrev two_admins : AuthStore
two_admins = record nothing { users = carl ∷ ann ∷ []; next_id = 2 }

guard_last_admin-write_user_example :
    (guard_last_admin works two_admins ≡ none)
    × (count_admins
          (write_user plain auth works 0 1 demotion carl
            (write_user plain auth works 0 0 demotion ann two_admins).1).1
        ≡ 0)
guard_last_admin-write_user_example =
    guard_last_admin-write_user plain auth works 0 0 1 demotion demotion ann carl two_admins
      (ground arith) refl (ground arith) refl refl refl refl refl refl refl refl refl refl
