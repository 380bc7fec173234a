-- ===== src/Api/Tests.antt =====
-- The chain of middlewares at a concrete request.
use blackgrid.Prelude.{Bool, true, false, ◌≡◌, refl, none, some, [], ◌∷◌}
use text.Mathlib.Text.{◌==◌ as str_eq}
use blackgrid.Model.{User, Session, operator}
use blackgrid.Auth.{Crypto, AuthStore}
use blackgrid.Auth.Users.{new_user}
use blackgrid.Auth.Sessions.{new_session, resolve_session}
use blackgrid.Api.Guards.{Request, Context, auth_middleware, require_role, role_at_least}
use blackgrid.Api.Routes.{Route, route, auth_mw, operator_mw, post, monitor_test_limiter, serve}
use blackgrid.Api.Access.{Authenticated}
use blackgrid.Api.Reach.{serve-Authenticated}

abbrev plain : Crypto
plain = record {
  hash_password = some;
  matches = λ hash password. str_eq hash password;
  sha256_hex = λ token. token;
  lower_trim = λ email. email;
  byte_length = λ password. 14;
}

abbrev bob : User
bob = new_user 1 "bob@x" "Bob" "bob's password" operator true

abbrev bob_session : Session
bob_session = new_session 2 1 "raw" 900

abbrev tables : AuthStore
tables = record {
  users = bob ∷ [];
  sessions = bob_session ∷ [];
  api_tokens = [];
  next_id = 3;
  published = [];
  audited = [];
}

abbrev with_cookie : Request
with_cookie = record { cookie = some "raw"; authorization = ""; real_ip = "10.0.0.7" }

abbrev is_test : Route → Bool
is_test r = str_eq r.path "/api/v1/monitors/:id/test"

abbrev test_route : Route
test_route =
    route post "/api/v1/monitors/:id/test" (auth_mw ∷ operator_mw ∷ monitor_test_limiter ∷ [])

abbrev bob_context : Context
bob_context = record { user = bob; role = operator; token_id = none }

serve-Authenticated_example :
    (c : Context) × (some bob_context ≡ some c)
    × Authenticated plain 600 with_cookie tables c
    × (role_at_least c.role operator ≡ true)
unfolding serve auth_middleware resolve_session require_role
serve-Authenticated_example =
    serve-Authenticated plain (λ q. false) (λ q. false) 600 (λ l k. true) (λ id. "bob") with_cookie
      is_test test_route tables (some bob_context) refl refl
