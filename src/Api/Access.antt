-- ===== src/Api/Access.antt =====
-- The roles that the parts of the interface ask for, and the table of routes against them.
use blackgrid.Prelude.{
  ℕ, String, Bool, true, false, not, if◌then◌else◌, ◌&&◌, ◌||◌, leb, ◌≤◌, ◌≡◌, refl, ◌⊎◌, some,
  List, [], ◌∷◌, All, any_of, is_some, arith,
}
use text.Mathlib.Text.{◌==◌ as str_eq}
use blackgrid.Model.{Session, ApiToken, Role, admin, operator}
use blackgrid.Auth.{Crypto, AuthStore, find_user}
use blackgrid.Auth.Sessions.{find_session}
use blackgrid.Auth.Tokens.{find_token, has_expired}
use blackgrid.Api.Guards.{Request, Context, strip_prefix, rank}
use blackgrid.Api.Routes.{
  Method, get, route, Middleware, auth_mw, role_mw, limit_mw, Route, api_routes,
}

-- The user of a context is enabled and comes with a session that has not expired.
abbrev pub InSession : Crypto → ℕ → Request → AuthStore → Context → Type 0
InSession cr now q s c =
    (value : String) × (x : Session) × (q.cookie ≡ some value)
    × (find_session (cr.sha256_hex value) s ≡ some x)
    × (find_user x.user_id s ≡ some c.user)
    × (c.user.enabled ≡ true)
    × (now ≤ x.expires_at)
    × (c.role ≡ c.user.role)

-- The same with an API token, whose role counts.
abbrev pub WithToken : Crypto → ℕ → Request → AuthStore → Context → Type 0
WithToken cr now q s c =
    (raw : String) × (x : ApiToken) × (strip_prefix "Bearer " q.authorization ≡ some raw)
    × (find_token (cr.sha256_hex raw) s ≡ some x)
    × (find_user x.user_id s ≡ some c.user)
    × (c.user.enabled ≡ true)
    × (has_expired now x.expires_at ≡ false)
    × (c.role ≡ x.role)

abbrev pub Authenticated : Crypto → ℕ → Request → AuthStore → Context → Type 0
Authenticated cr now q s c = InSession cr now q s c ⊎ WithToken cr now q s c

abbrev has_prefix : String → String → Bool
has_prefix p s = is_some (strip_prefix p s)

abbrev is_get : Method → Bool
is_get get = true
is_get _ = false

-- Users, API tokens, the audit log and the actions of an administrator.
abbrev pub is_admin_path : String → Bool
is_admin_path path =
    any_of (λ p. has_prefix p path)
      ("/api/v1/users" ∷ "/api/v1/api-tokens" ∷ "/api/v1/audit-log" ∷ "/api/v1/admin" ∷ [])

-- The least role for a route: an administrator for these paths and to change a notification channel,
-- an operator for any other change and for the diagnostics of discovery, and any user to read the rest.
abbrev pub least_role : Method → String → Role
least_role m path =
    if is_admin_path path || (not (is_get m) && has_prefix "/api/v1/notification-channels" path)
    then admin
    else if is_get m && not (str_eq path "/api/v1/discovery/diagnostics")
    then Role.other ""
    else operator

abbrev pub asks : Role → List Middleware → Bool
asks need [] = leb (rank need) 0
asks need (role_mw r ∷ rest) = leb (rank need) (rank r) || asks need rest
asks need (_ ∷ rest) = asks need rest

abbrev pub no_auth : List Middleware → Bool
no_auth [] = true
no_auth (auth_mw ∷ rest) = false
no_auth (_ ∷ rest) = no_auth rest

-- The chain authenticates first and once, and asks for the role.
abbrev pub is_guarded : Route → Bool
is_guarded r = elim r.chain [
  | [] ↦ false
  | auth_mw ∷ rest ↦ no_auth rest && asks (least_role r.method r.path) rest
  | _ ∷ rest ↦ false
]

abbrev all_guarded : List Route → Bool
all_guarded [] = true
all_guarded (r ∷ rs) = is_guarded r && all_guarded rs

pub guarded_chain :
    (r : Route)
    → is_guarded r ≡ true
    → (rest : List Middleware) × (r.chain ≡ auth_mw ∷ rest)
      × (no_auth rest ≡ true)
      × (asks (least_role r.method r.path) rest ≡ true)
guarded_chain r h = with_chain r.method r.path r.chain h
  where
    with_chain :
        (m : Method) (path : String) (ms : List Middleware)
        → is_guarded (route m path ms) ≡ true
        → (rest : List Middleware) × (ms ≡ auth_mw ∷ rest)
          × (no_auth rest ≡ true)
          × (asks (least_role m path) rest ≡ true)
    with_chain m path [] g = cc
    with_chain m path (auth_mw ∷ rest) g = (rest, refl, ground (arith, g), ground (arith, g))
    with_chain m path (role_mw x ∷ rest) g = cc
    with_chain m path (limit_mw x ∷ rest) g = cc

All-all_guarded :
    (rs : List Route) → all_guarded rs ≡ true → All (λ (r : Route). is_guarded r ≡ true) rs
All-all_guarded [] h = tt
All-all_guarded (r ∷ rs) h = (ground (arith, h), All-all_guarded rs (ground (arith, h)))

pub api_routes-guarded : All (λ (r : Route). is_guarded r ≡ true) api_routes
api_routes-guarded = All-all_guarded api_routes refl
