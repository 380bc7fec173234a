-- ===== src/Auth/Access.antt =====
-- Who is let in by a session: what Login gives out, and what ResolveSession makes of it.
use blackgrid.Prelude.{
  ℕ, String, Bool, true, false, ◌≡◌, ◌≤◌, ◌⊎◌, ◌+◌, ◌*◌, refl, ap, ◌∙◌, Option, none, some, List,
  ◌∷◌, arith, inl, inr, Option-cases, Bool-cases, KeysBelow, find_by, find_if, update_by, ok,
  find_by-find_if, find_by-update_by, if-true,
}
use text.Mathlib.Text.{◌==◌ as str_eq}
use text.Mathlib.TextPositions.{eq_refl}
use blackgrid.Model.{User, Session}
use blackgrid.Auth.{
  Crypto, AuthService, AuthStore, AuthQuery, user_id_of, find_user, get_session_by_hash,
  get_user_by_id, update_user_last_login,
}
use blackgrid.Auth.Sessions.{
  login, resolve_session, open_session, find_email, find_session, new_session, seconds_per_hour,
}

-- A session that resolves has its hash in the table and has not expired, and the user that it resolves
-- to is the one of the session, who is there and enabled.
pub resolve_session-enabled :
    (cr : Crypto) (fails : AuthQuery → Bool) (now : ℕ) (token : String) (s : AuthStore) (u : User)
    (x : Session)
    → (resolve_session cr fails now token s).0 ≡ ok (u, x)
    → (find_session (cr.sha256_hex token) s ≡ some x)
      × (find_user x.user_id s ≡ some u)
      × (now ≤ x.expires_at)
      × (u.enabled ≡ true)
unfolding resolve_session
resolve_session-enabled cr fails now token s u x h =
    elim (Option-cases (find_session (cr.sha256_hex token) s)) [
      | inl e ↦ ground (arith, e, h)
      | inr (y, e) ↦ elim (Option-cases (find_user y.user_id s)) [
        | inl d ↦ ground (arith, e, d, h)
        | inr (w, d) ↦ ground (arith, e, d, h)
      ]
    ]

found_session :
    (cr : Crypto) (fails : AuthQuery → Bool) (now : ℕ) (token : String) (s : AuthStore) (u : User)
    (x : Session)
    → fails get_session_by_hash ≡ false
    → fails get_user_by_id ≡ false
    → find_session (cr.sha256_hex token) s ≡ some x
    → find_user x.user_id s ≡ some u
    → now ≤ x.expires_at
    → u.enabled ≡ true
    → (resolve_session cr fails now token s).0 ≡ ok (u, x)
unfolding resolve_session
found_session cr fails now token s u x f g e d h on = ground (arith, f, g, e, d, h, on)

-- What a login that succeeds has found and written.
record LoggedIn (cr : Crypto) (svc : AuthService) (now : ℕ) (email : String) (s t : AuthStore)
    (user : User) (token : String) : Type 0 where
  known : find_email (cr.lower_trim email) s ≡ some user
  active : user.enabled ≡ true
  sessions :
      t.sessions
      ≡ new_session s.next_id user.id
          (cr.sha256_hex token)
          (now + svc.session_ttl_hours * seconds_per_hour)
        ∷ s.sessions
  users :
      (t.users ≡ s.users)
      ⊎ (t.users
          ≡ update_by user_id_of user.id (λ u. record u { last_login_at = some now }) s.users)

login-LoggedIn :
    (cr : Crypto) (svc : AuthService) (fails : AuthQuery → Bool) (now : ℕ) (random : Option String)
    (email password : String) (s t : AuthStore) (user : User) (token : String)
    → login cr svc fails now random email password s ≡ (ok (user, token), t)
    → LoggedIn cr svc now email s t user token
unfolding login open_session
login-LoggedIn cr svc fails now none email password s t user token h =
    elim (Option-cases (find_email (cr.lower_trim email) s)) [
      | inl e ↦ ground (arith, e, h)
      | inr (u, e) ↦ ground (arith, e, h)
    ]
login-LoggedIn cr svc fails now (some raw) email password s t user token h =
    elim (Option-cases (find_email (cr.lower_trim email) s)) [
      | inl e ↦ ground (arith, e, h)
      | inr (u, e) ↦ record {
        known = ground (arith, e, h);
        active = ground (arith, e, h);
        sessions = ground (arith, e, h);
        users = elim (Bool-cases (fails update_user_last_login)) [
          | inl f ↦ inl (ground (arith, e, h, f))
          | inr f ↦ inr (ground (arith, e, h, f))
        ];
      }
    ]

found_user :
    (s t : AuthStore) (user : User) (now : ℕ)
    → find_by user_id_of user.id s.users ≡ some user
    → (t.users ≡ s.users)
      ⊎ (t.users
          ≡ update_by user_id_of user.id (λ u. record u { last_login_at = some now }) s.users)
    → (u : User) × (find_user user.id t ≡ some u)
      × (u.id ≡ user.id)
      × (u.role ≡ user.role)
      × (u.enabled ≡ user.enabled)
found_user s t user now found (inl same) =
    (user, ap (find_by user_id_of user.id) same ∙ found, refl, refl, refl)
found_user s t user now found (inr stamped) = (
  record user { last_login_at = some now },
  ap (find_by user_id_of user.id) stamped
      ∙ find_by-update_by user_id_of user.id (λ u. record u { last_login_at = some now }) s.users
          user (λ u. refl) found,
  refl,
  refl,
  refl,
)

found_head :
    (hash : String) (x : Session) (t : AuthStore) (rest : List Session)
    → t.sessions ≡ x ∷ rest
    → x.session_hash ≡ hash
    → find_session hash t ≡ some x
found_head hash x t rest e same =
    ap (find_if (λ y. str_eq y.session_hash hash)) e
    ∙ if-true _ _ (ap (λ h. str_eq h hash) same ∙ eq_refl hash)

-- The token that a login gives out is the user's until the session expires: if the ids of the users
-- are distinct and the two lookups do not fail, it resolves to a session of that user, with the
-- user's role.
pub login-resolve_session :
    (cr : Crypto) (svc : AuthService) (fails fails2 : AuthQuery → Bool) (now later : ℕ)
    (random : Option String) (email password : String) (s t : AuthStore) (user : User)
    (token : String)
    → KeysBelow user_id_of s.next_id s.users
    → login cr svc fails now random email password s ≡ (ok (user, token), t)
    → later ≤ now + svc.session_ttl_hours * seconds_per_hour
    → fails2 get_session_by_hash ≡ false
    → fails2 get_user_by_id ≡ false
    → (u : User) × (x : Session) × ((resolve_session cr fails2 later token t).0 ≡ ok (u, x))
      × (u.id ≡ user.id)
      × (u.role ≡ user.role)
login-resolve_session cr svc fails fails2 now later random email password s t user token distinct h
      soon f g =
    let l = login-LoggedIn cr svc fails now random email password s t user token h in
    let x =
      new_session s.next_id user.id (cr.sha256_hex token)
        (now + svc.session_ttl_hours * seconds_per_hour) in
    let (u, found, same_id, same_role, on) =
      found_user s t user now
        (find_by-find_if user_id_of (λ (u : User). str_eq u.email (cr.lower_trim email)) s.next_id
          s.users user distinct l.known)
        l.users in
    (
      u,
      x,
      found_session cr fails2 later token t u x f g
          (found_head (cr.sha256_hex token) x t s.sessions l.sessions refl) found soon
          (on ∙ l.active),
      same_id,
      same_role,
    )
