-- ===== src/Api/Reach.antt =====
-- Who reaches a handler of the group `api`.
use blackgrid.Prelude.{
  ℕ, String, Bool, true, leb, ◌≤◌, ◌≡◌, refl, ◌⊎◌, inl, inr, Option, none, some, List, [], ◌∷◌,
  All-find_if, find_if, ok, err, Result-cases, subst, ltb, Bool-cases, Option-cases, arith,
}
use blackgrid.Model.{User, Session, Role}
use text.Mathlib.Text.{◌==◌ as str_eq}
use blackgrid.Auth.{
  get_session_by_hash, get_user_by_id, AuthError, session_expired, session_not_found, user_disabled,
  database_error, Crypto, AuthStore, AuthQuery, find_user,
}
use blackgrid.Auth.Sessions.{resolve_session, find_session}
use blackgrid.Auth.Tokens.{resolve_api_token}
use blackgrid.Auth.Access.{resolve_session-enabled}
use blackgrid.Auth.Grants.{resolve_api_token-enabled}
use blackgrid.Api.Guards.{
  Request, Context, Limiter, strip_prefix, by_session, by_token, auth_middleware, role_at_least,
  require_role, is_allowed, rank,
}
use blackgrid.Api.Routes.{Middleware, auth_mw, role_mw, limit_mw, Route, api_routes, reached, serve}
use blackgrid.Api.Access.{
  InSession, WithToken, Authenticated, least_role, asks, no_auth, is_guarded, guarded_chain,
  api_routes-guarded,
}

module _ (cr : Crypto) (fails token_fails : AuthQuery → Bool) (now : ℕ) (q : Request) where
  resolve_session_cases :
      (token : String) (s : AuthStore)
      → ((e : AuthError) × (resolve_session cr fails now token s ≡ (err e, s)))
        ⊎ ((u : User) × (x : Session) × ((resolve_session cr fails now token s).0 ≡ ok (u, x)))
  unfolding resolve_session
  resolve_session_cases token s = elim (Bool-cases (fails get_session_by_hash)) [
    | inl f ↦ inl (database_error get_session_by_hash, ground (arith, f))
    | inr f ↦ elim (Option-cases (find_session (cr.sha256_hex token) s)) [
      | inl gone ↦ inl (session_not_found, ground (arith, f, gone))
      | inr (x, found) ↦ elim (Bool-cases (ltb x.expires_at now)) [
        | inl late ↦ inl (session_expired, ground (arith, f, found, late))
        | inr live ↦ elim (Bool-cases (fails get_user_by_id)) [
          | inl g ↦ inl (database_error get_user_by_id, ground (arith, f, found, live, g))
          | inr g ↦ elim (Option-cases (find_user x.user_id s)) [
            | inl gone ↦
                inl (database_error get_user_by_id, ground (arith, f, found, live, g, gone))
            | inr (u, known) ↦ elim (Bool-cases u.enabled) [
              | inl on ↦ inr (u, x, ground (arith, f, found, live, g, known, on))
              | inr off ↦ inl (user_disabled, ground (arith, f, found, live, g, known, off))
            ]
          ]
        ]
      ]
    ]
  ]

  by_session_cases :
      (s : AuthStore)
      → (by_session cr fails now q s ≡ (none, s))
        ⊎ ((c : Context) × ((by_session cr fails now q s).0 ≡ some c) × InSession cr now q s c)
  by_session_cases s = elim (Option-cases q.cookie) [
    | inl bare ↦ inl (ground (arith, bare))
    | inr (value, sent) ↦ elim (Bool-cases (str_eq value "")) [
      | inl blank ↦ inl (ground (arith, sent, blank))
      | inr full ↦ elim (resolve_session_cases value s) [
        | inl (e, no_session) ↦ inl (ground (arith, sent, full, no_session))
        | inr (u, x, found) ↦
            let (stands, known, live, on) =
              resolve_session-enabled cr fails now value s u x found in
            inr (
              record { user = u; role = u.role; token_id = none },
              ground (arith, sent, full, found),
              (value, x, sent, stands, known, on, live, refl),
            )
      ]
    ]
  ]

  by_token_cases :
      (s : AuthStore)
      → ((by_token cr token_fails now q s).0 ≡ none)
        ⊎ ((c : Context) × ((by_token cr token_fails now q s).0 ≡ some c) × WithToken cr now q s c)
  by_token_cases s = elim (Option-cases (strip_prefix "Bearer " q.authorization)) [
    | inl bare ↦ inl (ground (arith, bare))
    | inr (raw, sent) ↦ elim (Result-cases (resolve_api_token cr token_fails now raw s).0) [
      | inl (e, no_token) ↦ inl (ground (arith, sent, no_token))
      | inr ((u, x), found) ↦
          let (stands, known, live, on, read, got) =
            resolve_api_token-enabled cr token_fails now raw s u x found in
          inr (
            record { user = u; role = x.role; token_id = some x.id },
            ground (arith, sent, found),
            (raw, x, sent, stands, known, on, live, refl),
          )
    ]
  ]

  auth_middleware-Authenticated :
      (s : AuthStore) (c : Context)
      → (auth_middleware cr fails token_fails now q s).0 ≡ some c
      → Authenticated cr now q s c
  unfolding auth_middleware
  auth_middleware-Authenticated s c h = elim (by_session_cases s) [
    | inl nobody ↦ elim (by_token_cases s) [
      | inl nobody' ↦ ground (arith, h, nobody, nobody')
      | inr (d, found, good) ↦
          let same : d ≡ c = ground (arith, h, nobody, found) in
          inr (subst (WithToken cr now q s) same good)
    ]
    | inr (d, found, good) ↦
        let same : d ≡ c = ground (arith, h, found) in inl (subst (InSession cr now q s) same good)
  ]

module _ (cr : Crypto) (fails token_fails : AuthQuery → Bool) (now : ℕ)
    (allows : Limiter → String → Bool) (uuid_str : ℕ → String) (q : Request) where
  serve_kept :
      (ms : List Middleware) (c : Context) (s : AuthStore) (out : Option Context)
      → no_auth ms ≡ true
      → (serve cr fails token_fails now allows uuid_str q ms (some c) s).0 ≡ reached out
      → (out ≡ some c) × ((need : Role) → asks need ms ≡ true → rank need ≤ rank c.role)
  unfolding serve require_role role_at_least
  serve_kept [] c s out alone h = (ground (arith, h), λ need a. ground (arith, a))
  serve_kept (auth_mw ∷ rest) c s out alone h = ground (arith, alone)
  serve_kept (role_mw r ∷ rest) c s out alone h = elim (Bool-cases (leb (rank r) (rank c.role))) [
    | inl enough ↦
        let (kept, more) =
          serve_kept rest c s out (ground (arith, alone)) (ground (arith, h, enough)) in
        (kept, λ need a. ground (arith, a, enough, more need))
    | inr less ↦ ground (arith, h, less)
  ]
  serve_kept (limit_mw l ∷ rest) c s out alone h =
      elim (Bool-cases (is_allowed allows uuid_str l q (some c))) [
        | inl free ↦ serve_kept rest c s out (ground (arith, alone)) (ground (arith, h, free))
        | inr full ↦ ground (arith, h, full)
      ]

  -- A handler of the group `api` that is reached, on whichever route the router matches, has the context
  -- of an enabled user whom a session or an API token of the request identifies, neither of which has
  -- expired, and the role of the session's user or of the token is at least: administrator for the users,
  -- the API tokens, the audit log, the paths under /admin and every change or test of a notification
  -- channel; operator for every other request that is not a GET and for the diagnostics of discovery. The
  -- other GET requests ask for no role.
  pub serve-Authenticated :
      (matches : Route → Bool) (r : Route) (s : AuthStore) (out : Option Context)
      → find_if matches api_routes ≡ some r
      → (serve cr fails token_fails now allows uuid_str q r.chain none s).0 ≡ reached out
      → (c : Context) × (out ≡ some c)
        × Authenticated cr now q s c
        × (role_at_least c.role (least_role r.method r.path) ≡ true)
  unfolding serve role_at_least
  serve-Authenticated matches r s out routed h =
      let (rest, chained, alone, asked) = guarded_chain r (
        All-find_if (λ (x : Route). is_guarded x ≡ true) matches api_routes r api_routes-guarded
          routed) in
      elim (Option-cases (auth_middleware cr fails token_fails now q s).0) [
        | inl nobody ↦ ground (arith, h, chained, nobody)
        | inr (c, found) ↦
            let (same, more) =
              serve_kept rest c (auth_middleware cr fails token_fails now q s).1 out alone
                (ground (arith, h, chained, found)) in
            (
              c,
              same,
              auth_middleware-Authenticated cr fails token_fails now q s c found,
              ground (arith, more (least_role r.method r.path) asked),
            )
      ]
