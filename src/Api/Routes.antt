-- ===== src/Api/Routes.antt =====
-- The routes of cmd/server/main.go with their middlewares, and the chain of middlewares before a
-- handler: those of the groups first. Which route a request matches is decided by echo's router.
use blackgrid.Prelude.{ℕ, String, Bool, true, false, Option, none, some, List, [], ◌∷◌, ◌++◌, map}
use blackgrid.Model.{admin, operator, Role}
use blackgrid.Auth.{Crypto, AuthStore, AuthQuery}
use blackgrid.Api.Errors.{ErrCode, unauthorized, forbidden, rate_limited}
use blackgrid.Api.Guards.{
  Request, Context, Limiter, per_ip, per_user, auth_middleware, require_role, is_allowed,
}

pub data Method : Type 0 where
  get post put patch delete : Method

pub data Middleware : Type 0 where
  auth_mw : Middleware
  role_mw : Role → Middleware
  limit_mw : Limiter → Middleware

pub record Route : Type 0 where
  pub method : Method
  pub path : String
  pub chain : List Middleware

abbrev pub route : Method → String → List Middleware → Route
route m p c = record { method = m; path = p; chain = c }

-- RequireAdmin and RequireOperator
abbrev pub admin_mw : Middleware
admin_mw = role_mw admin

abbrev pub operator_mw : Middleware
operator_mw = role_mw operator

abbrev pub login_limiter : Middleware
login_limiter = limit_mw (per_ip "login")

abbrev pub setup_limiter : Middleware
setup_limiter = limit_mw (per_ip "setup")

abbrev pub push_limiter : Middleware
push_limiter = limit_mw (per_ip "push")

abbrev pub api_token_limiter : Middleware
api_token_limiter = limit_mw (per_user "api token")

abbrev pub notif_test_limiter : Middleware
notif_test_limiter = limit_mw (per_user "notification test")

abbrev pub monitor_test_limiter : Middleware
monitor_test_limiter = limit_mw (per_user "monitor test")

-- echo's Group: its middlewares come before those of the route.
abbrev pub in_group : List Middleware → List Route → List Route
in_group before rs = map (λ (r : Route). route r.method r.path (before ++ r.chain)) rs

-- The routes without authentication.
abbrev pub public_routes : List Route
public_routes =
    route get "/status/:slug" []
    ∷ route get "/push/:token" (push_limiter ∷ [])
    ∷ route post "/push/:token" (push_limiter ∷ [])
    ∷ route get "/metrics" []
    ∷ route get "/api/v1/health" []
    ∷ route get "/api/v1/ready" []
    ∷ route get "/api/v1/setup/status" []
    ∷ route post "/api/v1/setup/admin" (setup_limiter ∷ [])
    ∷ route post "/api/v1/auth/login" (login_limiter ∷ [])
    ∷ route post "/api/v1/auth/logout" []
    ∷ []

abbrev pub account_routes : List Route
account_routes =
    route get "/api/v1/auth/me" []
    ∷ route get "/api/v1/events/stream" []
    ∷ route get "/api/v1/users" (admin_mw ∷ [])
    ∷ route post "/api/v1/users" (admin_mw ∷ [])
    ∷ route get "/api/v1/users/:id" (admin_mw ∷ [])
    ∷ route patch "/api/v1/users/:id" (admin_mw ∷ [])
    ∷ route delete "/api/v1/users/:id" (admin_mw ∷ [])
    ∷ route get "/api/v1/api-tokens" (admin_mw ∷ [])
    ∷ route post "/api/v1/api-tokens" (admin_mw ∷ api_token_limiter ∷ [])
    ∷ route delete "/api/v1/api-tokens/:id" (admin_mw ∷ [])
    ∷ route get "/api/v1/audit-log" (admin_mw ∷ [])
    ∷ []

abbrev pub ipam_routes : List Route
ipam_routes =
    route get "/api/v1/sites" []
    ∷ route get "/api/v1/sites/:id" []
    ∷ route post "/api/v1/sites" (operator_mw ∷ [])
    ∷ route put "/api/v1/sites/:id" (operator_mw ∷ [])
    ∷ route delete "/api/v1/sites/:id" (operator_mw ∷ [])
    ∷ route get "/api/v1/vlans" []
    ∷ route get "/api/v1/vlans/:id" []
    ∷ route post "/api/v1/vlans" (operator_mw ∷ [])
    ∷ route put "/api/v1/vlans/:id" (operator_mw ∷ [])
    ∷ route delete "/api/v1/vlans/:id" (operator_mw ∷ [])
    ∷ route get "/api/v1/prefixes" []
    ∷ route get "/api/v1/prefixes/:id" []
    ∷ route get "/api/v1/prefixes/:id/next-ip" []
    ∷ route get "/api/v1/prefixes/:id/next-available" []
    ∷ route get "/api/v1/prefixes/:id/addresses" []
    ∷ route get "/api/v1/prefixes/:id/utilization" []
    ∷ route post "/api/v1/prefixes" (operator_mw ∷ [])
    ∷ route put "/api/v1/prefixes/:id" (operator_mw ∷ [])
    ∷ route put "/api/v1/prefixes/:id/scan-config" (operator_mw ∷ [])
    ∷ route delete "/api/v1/prefixes/:id" (operator_mw ∷ [])
    ∷ route post "/api/v1/prefixes/:id/scan" (operator_mw ∷ [])
    ∷ route get "/api/v1/ip-addresses" []
    ∷ route get "/api/v1/ip-addresses/:id" []
    ∷ route post "/api/v1/ip-addresses" (operator_mw ∷ [])
    ∷ route put "/api/v1/ip-addresses/:id" (operator_mw ∷ [])
    ∷ route post "/api/v1/ip-addresses/:id/reserve" (operator_mw ∷ [])
    ∷ route post "/api/v1/ip-addresses/:id/assign" (operator_mw ∷ [])
    ∷ route post "/api/v1/ip-addresses/:id/release" (operator_mw ∷ [])
    ∷ route delete "/api/v1/ip-addresses/:id" (operator_mw ∷ [])
    ∷ route get "/api/v1/devices" []
    ∷ route get "/api/v1/devices/:id" []
    ∷ route post "/api/v1/devices" (operator_mw ∷ [])
    ∷ route put "/api/v1/devices/:id" (operator_mw ∷ [])
    ∷ route delete "/api/v1/devices/:id" (operator_mw ∷ [])
    ∷ []

abbrev pub discovery_routes : List Route
discovery_routes =
    route get "/api/v1/discovery/scans" []
    ∷ route post "/api/v1/discovery/scans" (operator_mw ∷ [])
    ∷ route get "/api/v1/discovery/scans/:id" []
    ∷ route get "/api/v1/discovery/results" []
    ∷ route post "/api/v1/discovery/results/:id/accept" (operator_mw ∷ [])
    ∷ route post "/api/v1/discovery/results/:id/ignore" (operator_mw ∷ [])
    ∷ route get "/api/v1/discovery/diagnostics" (operator_mw ∷ [])
    ∷ route post "/api/v1/discovery/probe" (operator_mw ∷ [])
    ∷ []

abbrev pub monitor_routes : List Route
monitor_routes =
    route get "/api/v1/monitors" []
    ∷ route get "/api/v1/monitors/:id" []
    ∷ route post "/api/v1/monitors" (operator_mw ∷ [])
    ∷ route patch "/api/v1/monitors/:id" (operator_mw ∷ [])
    ∷ route delete "/api/v1/monitors/:id" (operator_mw ∷ [])
    ∷ route post "/api/v1/monitors/:id/pause" (operator_mw ∷ [])
    ∷ route post "/api/v1/monitors/:id/resume" (operator_mw ∷ [])
    ∷ route post "/api/v1/monitors/:id/test" (operator_mw ∷ monitor_test_limiter ∷ [])
    ∷ route get "/api/v1/monitors/:id/results" []
    ∷ route post "/api/v1/monitors/:id/rotate-push-token" (operator_mw ∷ [])
    ∷ route get "/api/v1/incidents" []
    ∷ route get "/api/v1/incidents/counts" []
    ∷ route get "/api/v1/incidents/:id" []
    ∷ route post "/api/v1/incidents/:id/acknowledge" (operator_mw ∷ [])
    ∷ route post "/api/v1/incidents/:id/resolve" (operator_mw ∷ [])
    ∷ []

abbrev pub page_routes : List Route
page_routes =
    route get "/api/v1/notification-channels" []
    ∷ route post "/api/v1/notification-channels" (admin_mw ∷ [])
    ∷ route get "/api/v1/notification-channels/:id" []
    ∷ route patch "/api/v1/notification-channels/:id" (admin_mw ∷ [])
    ∷ route delete "/api/v1/notification-channels/:id" (admin_mw ∷ [])
    ∷ route post "/api/v1/notification-channels/:id/test" (admin_mw ∷ notif_test_limiter ∷ [])
    ∷ route get "/api/v1/status-pages" []
    ∷ route post "/api/v1/status-pages" (operator_mw ∷ [])
    ∷ route get "/api/v1/status-pages/:id" []
    ∷ route patch "/api/v1/status-pages/:id" (operator_mw ∷ [])
    ∷ route delete "/api/v1/status-pages/:id" (operator_mw ∷ [])
    ∷ route post "/api/v1/status-pages/:id/monitors" (operator_mw ∷ [])
    ∷ route patch "/api/v1/status-pages/:id/monitors/:monitor_id" (operator_mw ∷ [])
    ∷ route delete "/api/v1/status-pages/:id/monitors/:monitor_id" (operator_mw ∷ [])
    ∷ route post "/api/v1/status-pages/:id/monitors/reorder" (operator_mw ∷ [])
    ∷ []

abbrev pub admin_routes : List Route
admin_routes =
    route post "/api/v1/admin/retention/run" [] ∷ route get "/api/v1/admin/diagnostics" [] ∷ []

-- What stands before the handler of each route of the group `api`.
abbrev pub api_routes : List Route
api_routes =
    in_group (auth_mw ∷ [])
      (account_routes ++ (ipam_routes ++ (discovery_routes ++ (monitor_routes ++ page_routes))))
    ++ in_group (auth_mw ∷ admin_mw ∷ []) admin_routes

pub data Outcome : Type 0 where
  reached : Option Context → Outcome
  refused : ErrCode → Outcome

-- What a request and a server bring to a chain: `allows` is what the limiters answer.
module _ (cr : Crypto) (fails token_fails : AuthQuery → Bool) (now : ℕ)
    (allows : Limiter → String → Bool) (uuid_str : ℕ → String) (q : Request) where
  -- Each middleware calls the next one or answers.
  unfoldable pub serve : List Middleware → Option Context → AuthStore → Outcome × AuthStore
  unfolding auth_middleware require_role
  serve [] c s = (reached c, s)
  serve (auth_mw ∷ rest) c s =
      let (found, s') = auth_middleware cr fails token_fails now q s in
      elim found [ none ↦ (refused unauthorized, s') | some x ↦ serve rest (some x) s' ]
  serve (role_mw need ∷ rest) c s = elim (require_role need c) [
    | true ↦ serve rest c s
    | false ↦ (refused forbidden, s)
  ]
  serve (limit_mw l ∷ rest) c s = elim (is_allowed allows uuid_str l q c) [
    | true ↦ serve rest c s
    | false ↦ (refused rate_limited, s)
  ]
