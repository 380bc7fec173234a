-- ===== src/Auth/Grants.antt =====
-- The rights that an API token grants, and what an update of its owner does to them.
use blackgrid.Prelude.{
  ℕ, String, Bool, true, false, ◌≡◌, ◌≤◌, refl, sym, ap, ◌∙◌, subst, Option, none, some, ◌∷◌, arith,
  inl, inr, Option-cases, find_by, find_if, update_by, ok, err, find_by-update_by, if-true,
}
use text.Mathlib.Text.{◌==◌ as str_eq}
use text.Mathlib.TextPositions.{eq_refl}
use blackgrid.Model.{User, ApiToken}
use blackgrid.Auth.{
  Crypto, AuthService, AuthStore, AuthQuery, user_id_of, find_user, is_admin, role_rank,
  get_user_by_id, get_api_token_by_hash, is_too_short, is_valid_role, password_too_short,
  update_user_row,
}
use blackgrid.Auth.Users.{
  UpdateUserInput, update_user, write_user, update_password, updated_user, guard_last_admin,
}
use blackgrid.Auth.Tokens.{
  CreateApiTokenInput, create_api_token, create_token_row, resolve_api_token, find_token,
  has_expired, new_token,
}

found_token :
    (cr : Crypto) (fails : AuthQuery → Bool) (now : ℕ) (token : String) (s : AuthStore) (u : User)
    (x : ApiToken)
    → fails get_api_token_by_hash ≡ false
    → fails get_user_by_id ≡ false
    → find_token (cr.sha256_hex token) s ≡ some x
    → find_user x.user_id s ≡ some u
    → has_expired now x.expires_at ≡ false
    → u.enabled ≡ true
    → (resolve_api_token cr fails now token s).0 ≡ ok (u, x)
unfolding resolve_api_token
found_token cr fails now token s u x f g e d h on = ground (arith, f, g, e, d, h, on)

created_token :
    (cr : Crypto) (svc : AuthService) (fails : AuthQuery → Bool) (actor : ℕ)
    (random : Option String) (p : CreateApiTokenInput) (s t : AuthStore) (owner : User)
    (plaintext : String) (x : ApiToken)
    → create_api_token cr svc fails actor random p s ≡ (ok (plaintext, x), t)
    → find_user p.user_id s ≡ some owner
    → (x ≡ new_token s.next_id p (cr.sha256_hex plaintext))
      × (t.api_tokens ≡ x ∷ s.api_tokens)
      × (t.users ≡ s.users)
      × (role_rank p.role ≤ role_rank owner.role)
unfolding create_api_token create_token_row
created_token cr svc fails actor none p s t owner plaintext x h known = ground (arith, h, known)
created_token cr svc fails actor (some raw) p s t owner plaintext x h known =
    ground (arith, h, known)

-- The token that CreateAPIToken gives out has a role no higher than its owner's, and until it expires
-- it resolves to the owner, if the owner is enabled and the two lookups do not fail.
pub create_api_token-resolve_api_token :
    (cr : Crypto) (svc : AuthService) (fails fails2 : AuthQuery → Bool) (actor now : ℕ)
    (random : Option String) (p : CreateApiTokenInput) (s t : AuthStore) (owner : User)
    (plaintext : String) (x : ApiToken)
    → create_api_token cr svc fails actor random p s ≡ (ok (plaintext, x), t)
    → find_user p.user_id s ≡ some owner
    → owner.enabled ≡ true
    → has_expired now p.expires_at ≡ false
    → fails2 get_api_token_by_hash ≡ false
    → fails2 get_user_by_id ≡ false
    → ((resolve_api_token cr fails2 now plaintext t).0 ≡ ok (owner, x))
      × (x.role ≡ p.role)
      × (role_rank x.role ≤ role_rank owner.role)
create_api_token-resolve_api_token cr svc fails fails2 actor now random p s t owner plaintext x h
      known on fresh f g =
    let (is_new, stored, kept, allowed) =
      created_token cr svc fails actor random p s t owner plaintext x h known in
    let hash = cr.sha256_hex plaintext in
    (
      found_token cr fails2 now plaintext t owner x f g
          (ap (find_if (λ y. str_eq y.token_hash hash)) stored
            ∙ if-true _ _ (ap (λ (y : ApiToken). str_eq y.token_hash hash) is_new ∙ eq_refl hash))
          (ap (λ us. find_by user_id_of x.user_id us) kept
            ∙ ap (λ (y : ApiToken). find_user y.user_id s) is_new
            ∙ known)
          (ap (λ (y : ApiToken). has_expired now y.expires_at) is_new ∙ fresh) on,
      ap (λ (y : ApiToken). y.role) is_new,
      subst (λ (y : ApiToken). role_rank y.role ≤ role_rank owner.role) (sym is_new) allowed,
    )

-- A token that resolves has its hash in the table and has not expired, the user that it resolves to is
-- its owner, who is there and enabled, and the two lookups have not failed.
pub resolve_api_token-enabled :
    (cr : Crypto) (fails : AuthQuery → Bool) (now : ℕ) (token : String) (s : AuthStore) (u : User)
    (x : ApiToken)
    → (resolve_api_token cr fails now token s).0 ≡ ok (u, x)
    → (find_token (cr.sha256_hex token) s ≡ some x)
      × (find_user x.user_id s ≡ some u)
      × (has_expired now x.expires_at ≡ false)
      × (u.enabled ≡ true)
      × (fails get_api_token_by_hash ≡ false)
      × (fails get_user_by_id ≡ false)
unfolding resolve_api_token
resolve_api_token-enabled cr fails now token s u x h =
    elim (Option-cases (find_token (cr.sha256_hex token) s)) [
      | inl e ↦ ground (arith, e, h)
      | inr (y, e) ↦ elim (Option-cases (find_user y.user_id s)) [
        | inl d ↦ ground (arith, e, d, h)
        | inr (w, d) ↦ ground (arith, e, d, h)
      ]
    ]

-- An update without a password that succeeds writes one row of `users`, and no token.
updated_tables :
    (cr : Crypto) (svc : AuthService) (fails : AuthQuery → Bool) (actor id : ℕ)
    (p : UpdateUserInput) (s t : AuthStore) (after : User)
    → update_user cr svc fails actor id p s ≡ (ok after, t)
    → str_eq p.password "" ≡ true
    → (t.users ≡ update_by user_id_of id (updated_user p) s.users) × (t.api_tokens ≡ s.api_tokens)
unfolding update_user write_user update_password
updated_tables cr svc fails actor id p s t after g blank = elim (Option-cases (find_user id s)) [
  | inl e ↦ ground (arith, e, g)
  | inr (u, e) ↦ elim (Option-cases (guard_last_admin fails s)) [
    | inl free ↦ ground (arith, e, free, blank, g)
    | inr (why, held) ↦ ground (arith, e, held, blank, g)
  ]
]

-- A token keeps its role when its owner is given a lower one: if a token resolves, and an update of its
-- owner that leaves the owner enabled and the password as it is succeeds, then the token resolves
-- afterwards with the role it had, while the owner has the role of the update.
pub update_user-resolve_api_token :
    (cr : Crypto) (svc : AuthService) (fails fails2 : AuthQuery → Bool) (actor now : ℕ)
    (token : String) (p : UpdateUserInput) (s t : AuthStore) (u after : User) (x : ApiToken)
    → (resolve_api_token cr fails2 now token s).0 ≡ ok (u, x)
    → update_user cr svc fails actor x.user_id p s ≡ (ok after, t)
    → p.password ≡ ""
    → p.enabled ≡ true
    → (w : User) × ((resolve_api_token cr fails2 now token t).0 ≡ ok (w, x)) × (w.role ≡ p.role)
update_user-resolve_api_token cr svc fails fails2 actor now token p s t u after x h g blank on =
    let (stored, owned, fresh, active, f, l) =
      resolve_api_token-enabled cr fails2 now token s u x h in
    let (users, tokens) =
      updated_tables cr svc fails actor x.user_id p s t after g
        (ap (λ w. str_eq w "") blank ∙ eq_refl "") in
    (
      updated_user p u,
      found_token cr fails2 now token t (updated_user p u) x f l
          (ap (find_if (λ y. str_eq y.token_hash (cr.sha256_hex token))) tokens ∙ stored)
          (ap (find_by user_id_of x.user_id) users
            ∙ find_by-update_by user_id_of x.user_id (updated_user p) s.users u (λ u. refl) owned)
          fresh on,
      refl,
    )

-- An update with a password that is too short reports the error after the row is written: if the user
-- is there, the role is valid, the user is no administrator, and no query fails, then the user has the
-- name, the role and the enabling of the request although the call has failed.
update_user_too_short :
    (cr : Crypto) (svc : AuthService) (fails : AuthQuery → Bool) (actor id : ℕ)
    (p : UpdateUserInput) (s : AuthStore) (u : User)
    → find_user id s ≡ some u
    → is_admin u.role ≡ false
    → is_valid_role p.role ≡ true
    → str_eq p.password "" ≡ false
    → is_too_short cr p.password ≡ true
    → ((q : AuthQuery) → fails q ≡ false)
    → ((update_user cr svc fails actor id p s).0 ≡ err password_too_short)
      × (find_user id (update_user cr svc fails actor id p s).1 ≡ some (updated_user p u))
unfolding update_user write_user update_password
update_user_too_short cr svc fails actor id p s u found common valid given short works =
    let moved = find_by-update_by user_id_of id (updated_user p) s.users u (λ u. refl) found in
    (
      ground
          (arith, found, common, valid, given, short, works get_user_by_id, works update_user_row),
      ground (
        arith,
        found,
        common,
        valid,
        given,
        short,
        works get_user_by_id,
        works update_user_row,
        moved,
      ),
    )
