-- ===== src/Auth/Runs.antt =====
-- Sequences of calls of AuthService, and the administrator over them.
use blackgrid.Prelude.{
  ℕ, String, Bool, ◌≡◌, ◌≤◌, refl, Option, none, some, List, [], ◌∷◌, arith, suc, inl, inr,
  Option-cases, KeysBelow-raise, find_by, update_by, ok,
}
use blackgrid.Model.{User}
use blackgrid.Auth.{Crypto, AuthService, AuthStore, AuthQuery, user_id_of, count_admins, find_user}
use blackgrid.Auth.Users.{
  CreateUserInput, UpdateUserInput, create_user, update_user, delete_user, create_first_admin,
  create_row,
}
use blackgrid.Auth.Sessions.{login, logout, resolve_session, open_session, find_email, find_session}
use blackgrid.Auth.Tokens.{
  CreateApiTokenInput, create_api_token, create_token_row, delete_api_token, resolve_api_token,
  find_token, token_id_of,
}
use blackgrid.Auth.Admins.{
  HasAdmin, Safe, relabelled-Safe, create_user-Safe, create_first_admin-Safe, update_user-Safe,
  delete_user-Safe,
}

pub data AuthCall : Type 0 where
  sets_up : String → String → String → AuthCall
  creates_user : ℕ → CreateUserInput → AuthCall
  updates_user : ℕ → ℕ → UpdateUserInput → AuthCall
  deletes_user : ℕ → ℕ → AuthCall
  logs_in : Option String → String → String → AuthCall
  logs_out resolves_session resolves_token : String → AuthCall
  creates_token : ℕ → Option String → CreateApiTokenInput → AuthCall
  deletes_token : ℕ → ℕ → AuthCall

pub record AuthInvocation : Type 0 where
  pub call : AuthCall
  pub fails : AuthQuery → Bool
  pub now : ℕ

unfoldable pub auth_step :
    AuthCall → Crypto → AuthService → (AuthQuery → Bool) → ℕ → AuthStore → AuthStore
auth_step (sets_up email name password) cr svc fails now s =
    (create_first_admin cr svc fails email name password s).1
auth_step (creates_user actor p) cr svc fails now s = (create_user cr svc fails actor p s).1
auth_step (updates_user actor id p) cr svc fails now s = (update_user cr svc fails actor id p s).1
auth_step (deletes_user actor id) cr svc fails now s = (delete_user svc fails actor id s).1
auth_step (logs_in random email password) cr svc fails now s =
    (login cr svc fails now random email password s).1
auth_step (logs_out token) cr svc fails now s = (logout cr svc fails token s).1
auth_step (resolves_session token) cr svc fails now s = (resolve_session cr fails now token s).1
auth_step (resolves_token token) cr svc fails now s = (resolve_api_token cr fails now token s).1
auth_step (creates_token actor random p) cr svc fails now s =
    (create_api_token cr svc fails actor random p s).1
auth_step (deletes_token actor id) cr svc fails now s = (delete_api_token svc fails actor id s).1

unfoldable pub auth_run : Crypto → AuthService → List AuthInvocation → AuthStore → AuthStore
auth_run cr svc [] s = s
auth_run cr svc (c ∷ cs) s = auth_run cr svc cs (auth_step c.call cr svc c.fails c.now s)

grown : (s : AuthStore) → Safe s → HasAdmin s.users (suc s.next_id)
grown s v = record {
  distinct = KeysBelow-raise user_id_of s.next_id (suc s.next_id) s.users (omega arith) v.distinct;
  some_admin = v.some_admin;
}

module _ {κ} (cr : Crypto) (svc : AuthService) (fails : AuthQuery → Bool) (now : ℕ)
    (P : List User → ℕ → Type κ) (s : AuthStore) (h : P s.users s.next_id) where
  abbrev Holds : AuthStore → Type κ
  Holds t = P t.users t.next_id

  logout_cases : (token : String) → Holds (logout cr svc fails token s).1
  unfolding logout
  logout_cases token = elim (Option-cases (find_session (cr.sha256_hex token) s)) [
    | inl e ↦ ground (arith, e, h)
    | inr (x, e) ↦ ground (arith, e, h)
  ]

  resolve_session_cases : (token : String) → Holds (resolve_session cr fails now token s).1
  unfolding resolve_session
  resolve_session_cases token = elim (Option-cases (find_session (cr.sha256_hex token) s)) [
    | inl e ↦ ground (arith, e, h)
    | inr (x, e) ↦ elim (Option-cases (find_user x.user_id s)) [
      | inl d ↦ ground (arith, e, d, h)
      | inr (u, d) ↦ ground (arith, e, d, h)
    ]
  ]

  resolve_api_token_cases : (token : String) → Holds (resolve_api_token cr fails now token s).1
  unfolding resolve_api_token
  resolve_api_token_cases token = elim (Option-cases (find_token (cr.sha256_hex token) s)) [
    | inl e ↦ ground (arith, e, h)
    | inr (x, e) ↦ elim (Option-cases (find_user x.user_id s)) [
      | inl d ↦ ground (arith, e, d, h)
      | inr (u, d) ↦ ground (arith, e, d, h)
    ]
  ]

  create_api_token_cases :
      (actor : ℕ) (random : Option String) (p : CreateApiTokenInput)
      → P s.users (suc s.next_id)
      → Holds (create_api_token cr svc fails actor random p s).1
  unfolding create_api_token create_token_row
  create_api_token_cases actor none p grown = elim (Option-cases (find_user p.user_id s)) [
    | inl e ↦ ground (arith, e, h, grown)
    | inr (u, e) ↦ ground (arith, e, h, grown)
  ]
  create_api_token_cases actor (some raw) p grown = elim (Option-cases (find_user p.user_id s)) [
    | inl e ↦ ground (arith, e, h, grown)
    | inr (u, e) ↦ ground (arith, e, h, grown)
  ]

  delete_api_token_cases : (actor id : ℕ) → Holds (delete_api_token svc fails actor id s).1
  unfolding delete_api_token
  delete_api_token_cases actor id = elim (Option-cases (find_by token_id_of id s.api_tokens)) [
    | inl e ↦ ground (arith, e, h)
    | inr (x, e) ↦ ground (arith, e, h)
  ]

  login_cases :
      (random : Option String) (email password : String)
      → P s.users (suc s.next_id)
      → ((u : User)
          → P
              (update_by user_id_of u.id (λ x. record x { last_login_at = some now }) s.users)
              (suc s.next_id))
      → Holds (login cr svc fails now random email password s).1
  unfolding login open_session
  login_cases none email password grown stamped =
      elim (Option-cases (find_email (cr.lower_trim email) s)) [
        | inl e ↦ ground (arith, e, h)
        | inr (u, e) ↦ ground (arith, e, h)
      ]
  login_cases (some token) email password grown stamped =
      elim (Option-cases (find_email (cr.lower_trim email) s)) [
        | inl e ↦ ground (arith, e, h)
        | inr (u, e) ↦ ground (arith, e, h, grown, stamped u)
      ]

pub auth_step-Safe :
    (c : AuthCall) (cr : Crypto) (svc : AuthService) (fails : AuthQuery → Bool) (now : ℕ)
    (s : AuthStore)
    → Safe s
    → Safe (auth_step c cr svc fails now s)
unfolding auth_step
auth_step-Safe (sets_up email name password) cr svc fails now s v =
    create_first_admin-Safe cr svc fails s v email name password
auth_step-Safe (creates_user actor p) cr svc fails now s v =
    create_user-Safe cr svc fails s v actor p
auth_step-Safe (updates_user actor id p) cr svc fails now s v =
    update_user-Safe cr svc fails s v actor id p
auth_step-Safe (deletes_user actor id) cr svc fails now s v =
    delete_user-Safe cr svc fails s v actor id
auth_step-Safe (logs_in random email password) cr svc fails now s v =
    login_cases cr svc fails now HasAdmin s v random email password (grown s v) λ u.
      relabelled-Safe u.id (λ x. record x { last_login_at = some now }) s.users (suc s.next_id)
        (λ x. refl) (λ x. refl) (grown s v)
auth_step-Safe (logs_out token) cr svc fails now s v =
    logout_cases cr svc fails now HasAdmin s v token
auth_step-Safe (resolves_session token) cr svc fails now s v =
    resolve_session_cases cr svc fails now HasAdmin s v token
auth_step-Safe (resolves_token token) cr svc fails now s v =
    resolve_api_token_cases cr svc fails now HasAdmin s v token
auth_step-Safe (creates_token actor random p) cr svc fails now s v =
    create_api_token_cases cr svc fails now HasAdmin s v actor random p (grown s v)
auth_step-Safe (deletes_token actor id) cr svc fails now s v =
    delete_api_token_cases cr svc fails now HasAdmin s v actor id

auth_run-Safe :
    (cr : Crypto) (svc : AuthService) (cs : List AuthInvocation) (s : AuthStore)
    → Safe s
    → Safe (auth_run cr svc cs s)
unfolding auth_run
auth_run-Safe cr svc [] s v = v
auth_run-Safe cr svc (c ∷ cs) s v =
    auth_run-Safe cr svc cs _ (auth_step-Safe c.call cr svc c.fails c.now s v)

setup-Safe :
    (cr : Crypto) (svc : AuthService) (fails : AuthQuery → Bool) (email name password : String)
    (s : AuthStore) (u : User)
    → s.users ≡ []
    → (create_first_admin cr svc fails email name password s).0 ≡ ok u
    → Safe (create_first_admin cr svc fails email name password s).1
unfolding create_first_admin create_row
setup-Safe cr svc fails email name password s u e h =
    elim (Option-cases (cr.hash_password password)) [
      | inl d ↦ ground (arith, d, e, h)
      | inr (hash, d) ↦ record {
        distinct = ground (arith, d, e, h);
        some_admin = ground (arith, d, e, h);
      }
    ]

-- After a setup that succeeds on an empty table of users, any sequence of calls, one after another and
-- whichever queries fail, leaves an enabled administrator.
pub setup-auth_run-Safe :
    (cr : Crypto) (svc : AuthService) (fails : AuthQuery → Bool) (email name password : String)
    (s : AuthStore) (u : User) (cs : List AuthInvocation)
    → s.users ≡ []
    → (create_first_admin cr svc fails email name password s).0 ≡ ok u
    → 1
      ≤ count_admins (auth_run cr svc cs (create_first_admin cr svc fails email name password s).1)
setup-auth_run-Safe cr svc fails email name password s u cs e h =
    (auth_run-Safe cr svc cs _ (setup-Safe cr svc fails email name password s u e h)).some_admin
