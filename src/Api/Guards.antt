-- ===== src/Api/Guards.antt =====
-- AuthMiddleware and RequireRole of internal/api/handlers/auth_middleware.go, and the rate limits of
-- middleware.go. What a limiter of golang.org/x/time/rate answers is an argument.
use blackgrid.Prelude.{ℕ, String, Bool, true, if◌then◌else◌, leb, ◌==◌, Option, none, some, ok, err}
use Prim.Native.Char.{code}
use text.Mathlib.Text.{◌==◌ as str_eq}
use blackgrid.Model.{User, Role, admin, operator, viewer}
use blackgrid.Auth.{Crypto, AuthStore, AuthQuery}
use blackgrid.Auth.Sessions.{resolve_session}
use blackgrid.Auth.Tokens.{resolve_api_token}

-- What of a request the middlewares read: the session cookie, the header Authorization, the address of
-- the client.
pub record Request : Type 0 where
  pub cookie : Option String
  pub authorization : String
  pub real_ip : String

-- The values that AuthMiddleware puts into the context.
pub record Context : Type 0 where
  pub user : User
  pub role : Role
  pub token_id : Option ℕ

abbrev pub rank : Role → ℕ
rank viewer = 1
rank operator = 2
rank admin = 3
rank (Role.other w) = 0

-- roleAtLeast
unfoldable pub role_at_least : Role → Role → Bool
role_at_least have need = leb (rank need) (rank have)

-- strings.TrimPrefix after strings.HasPrefix
abbrev pub strip_prefix : String → String → Option String
strip_prefix String.[] s = some s
strip_prefix (String.◌∷◌ c p) String.[] = none
strip_prefix (String.◌∷◌ c p) (String.◌∷◌ d s) =
    let rest = strip_prefix p s in if code c == code d then rest else none

abbrev pub by_session :
    Crypto → (AuthQuery → Bool) → ℕ → Request → AuthStore → Option Context × AuthStore
by_session cr fails now q s = elim q.cookie [
  | none ↦ (none, s)
  | some value ↦
      if str_eq value ""
      then (none, s)
      else let (found, s') = resolve_session cr fails now value s in
        elim found [
          | err e ↦ (none, s')
          | ok (user, x) ↦ (some (record { user = user; role = user.role; token_id = none }), s')
        ]
]

abbrev pub by_token :
    Crypto → (AuthQuery → Bool) → ℕ → Request → AuthStore → Option Context × AuthStore
by_token cr fails now q s = elim (strip_prefix "Bearer " q.authorization) [
  | none ↦ (none, s)
  | some raw ↦
      let (found, s') = resolve_api_token cr fails now raw s in
      elim found [
        | err e ↦ (none, s')
        | ok (user, x) ↦ (some (record { user = user; role = x.role; token_id = some x.id }), s')
      ]
]

-- AuthMiddleware: `none` is the status 401. The queries of the session and those of the API token fail
-- on their own.
unfoldable pub auth_middleware :
    Crypto
    → (fails token_fails : AuthQuery → Bool) → ℕ
    → Request
    → AuthStore
    → Option Context × AuthStore
auth_middleware cr fails token_fails now q s =
    let (found, s') = by_session cr fails now q s in
    elim found [ some c ↦ (some c, s') | none ↦ by_token cr token_fails now q s' ]

-- RequireRole, where the context may be without a role.
unfoldable pub require_role : Role → Option Context → Bool
unfolding role_at_least
require_role need none = role_at_least (Role.other "") need
require_role need (some c) = role_at_least c.role need

-- A limiter for each address, or for each user.
pub data Limiter : Type 0 where
  per_ip per_user : String → Limiter

-- RateLimitMiddleware and UserRateLimitMiddleware: a request without a user is not limited per user.
abbrev pub is_allowed :
    (Limiter → String → Bool) → (ℕ → String) → Limiter → Request → Option Context → Bool
is_allowed allows uuid_str (per_ip name) q c = allows (per_ip name) q.real_ip
is_allowed allows uuid_str (per_user name) q none = true
is_allowed allows uuid_str (per_user name) q (some c) = allows (per_user name) (uuid_str c.user.id)
