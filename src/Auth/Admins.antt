-- ===== src/Auth/Admins.antt =====
-- The last administrator: what the calls of AuthService do to the number of enabled administrators.
use blackgrid.Prelude.{
  ℕ, String, Bool, true, false, ◌≡◌, ◌≤◌, ◌⊎◌, refl, sym, subst, count_if-update_by_same, none,
  some, List, count_if, arith, inl, inr, KeysBelow, remove_by, remove_by-KeysBelow,
  count_if-remove_by, count_if-remove_by_outside, update_by, update_by-KeysBelow,
  count_if-update_by, count_if-update_by_kept, find_by,
}
use blackgrid.Model.{User, Value}
use blackgrid.Auth.{
  Crypto, AuthService, AuthStore, AuthQuery, is_enabled_admin, count_admins, user_id_of, find_user,
  update_user_where, AuditEntry, after_user,
}
use blackgrid.Auth.Users.{
  UpdateUserInput, CreateUserInput, updated_user, with_password, create_user, create_first_admin,
  write_user, update_user, delete_user, guard_last_admin,
}
use blackgrid.Auth.Cases.{
  create_user_cases, create_first_admin_cases, update_password_cases, write_user_cases,
  update_user_cases, delete_user_cases,
}

-- Distinct ids, and an administrator who is enabled.
pub record HasAdmin (users : List User) (n : ℕ) : Type 0 where
  pub distinct : KeysBelow user_id_of n users
  pub some_admin : 1 ≤ count_if is_enabled_admin users

abbrev pub Safe : AuthStore → Type 0
Safe s = HasAdmin s.users s.next_id

guarded :
    (fails : AuthQuery → Bool) (s : AuthStore)
    → guard_last_admin fails s ≡ none
    → 2 ≤ count_admins s
unfolding guard_last_admin
guarded fails s h = ground (arith, h)

-- An update of one row.
updated-Safe :
    (id : ℕ) (f : User → User) (e : User) (users : List User) (n : ℕ)
    → ((u : User) → (f u).id ≡ u.id)
    → find_by user_id_of id users ≡ some e
    → (2 ≤ count_if is_enabled_admin users)
      ⊎ (is_enabled_admin e ≡ true → is_enabled_admin (f e) ≡ true)
    → HasAdmin users n
    → HasAdmin (update_by user_id_of id f users) n
updated-Safe id f e users n same found (inl two) v = record {
  distinct = update_by-KeysBelow user_id_of id f n users same v.distinct;
  some_admin =
      omega (arith, two, count_if-update_by user_id_of id f is_enabled_admin n users v.distinct);
}
updated-Safe id f e users n same found (inr kept) v = record {
  distinct = update_by-KeysBelow user_id_of id f n users same v.distinct;
  some_admin = omega (
    arith,
    v.some_admin,
    count_if-update_by_kept user_id_of id f is_enabled_admin n users e v.distinct found kept,
  );
}

removed-Safe :
    (id : ℕ) (e : User) (users : List User) (n : ℕ)
    → find_by user_id_of id users ≡ some e
    → (2 ≤ count_if is_enabled_admin users) ⊎ (is_enabled_admin e ≡ false)
    → HasAdmin users n
    → HasAdmin (remove_by user_id_of id users) n
removed-Safe id e users n found (inl two) v = record {
  distinct = remove_by-KeysBelow user_id_of id n users v.distinct;
  some_admin =
      omega (arith, two, count_if-remove_by user_id_of id is_enabled_admin n users v.distinct);
}
removed-Safe id e users n found (inr none_lost) v = record {
  distinct = remove_by-KeysBelow user_id_of id n users v.distinct;
  some_admin = omega (
    arith,
    v.some_admin,
    count_if-remove_by_outside user_id_of id is_enabled_admin n users e v.distinct found none_lost,
  );
}

-- An update that concerns neither the id, the role nor the enabling.
pub relabelled-Safe :
    (id : ℕ) (f : User → User) (users : List User) (n : ℕ)
    → ((u : User) → (f u).id ≡ u.id)
    → ((u : User) → is_enabled_admin (f u) ≡ is_enabled_admin u)
    → HasAdmin users n
    → HasAdmin (update_by user_id_of id f users) n
relabelled-Safe id f users n same kept v = record {
  distinct = update_by-KeysBelow user_id_of id f n users same v.distinct;
  some_admin =
      omega
        (arith, v.some_admin, count_if-update_by_same user_id_of id f is_enabled_admin users kept);
}

after_user-users :
    (svc : AuthService) (a : AuditEntry) (id : ℕ) (payload : List (String × Value)) (s : AuthStore)
    → ((after_user svc a id payload s).users ≡ s.users)
      × ((after_user svc a id payload s).next_id ≡ s.next_id)
after_user-users svc a id payload s = ground arith

after_user-Safe :
    (svc : AuthService) (a : AuditEntry) (id : ℕ) (payload : List (String × Value)) (s : AuthStore)
    → Safe s
    → Safe (after_user svc a id payload s)
after_user-Safe svc a id payload s v =
    let (same, next) = after_user-users svc a id payload s in
    subst (λ us. HasAdmin us (after_user svc a id payload s).next_id) (sym same)
      (subst (HasAdmin s.users) (sym next) v)

module _ (cr : Crypto) (svc : AuthService) (fails : AuthQuery → Bool) (s : AuthStore)
    (v : Safe s) where
  pub create_user-Safe :
      (actor : ℕ) (p : CreateUserInput) → Safe (create_user cr svc fails actor p s).1
  create_user-Safe actor p = create_user_cases cr svc fails HasAdmin s v actor p λ hash. record {
    distinct = (omega arith, v.distinct);
    some_admin = omega (arith, v.some_admin);
  }

  pub create_first_admin-Safe :
      (email name password : String)
      → Safe (create_first_admin cr svc fails email name password s).1
  create_first_admin-Safe email name password =
      create_first_admin_cases cr svc fails HasAdmin s v email name password λ hash. record {
        distinct = (omega arith, v.distinct);
        some_admin = omega (arith, v.some_admin);
      }

  write_user-Safe :
      (actor id : ℕ) (p : UpdateUserInput) (e : User)
      → find_user id s ≡ some e
      → (2 ≤ count_admins s)
        ⊎ (is_enabled_admin e ≡ true → is_enabled_admin (updated_user p e) ≡ true)
      → Safe (write_user cr svc fails actor id p e s).1
  write_user-Safe actor id p e found why =
      let next = updated-Safe id (updated_user p) e s.users s.next_id (λ u. refl) found why v in
      write_user_cases cr svc fails HasAdmin s v actor id p e (
        update_password_cases cr svc fails HasAdmin (update_user_where id (updated_user p) s) next
          actor p.password (updated_user p e)
          λ hash.
            relabelled-Safe e.id (with_password hash) _ s.next_id (λ u. refl) (λ u. refl) next)

  pub update_user-Safe :
      (actor id : ℕ) (p : UpdateUserInput) → Safe (update_user cr svc fails actor id p s).1
  update_user-Safe actor id p =
      update_user_cases cr svc fails HasAdmin s v actor id p λ e found why.
        write_user-Safe actor id p e found (elim why [
          | inl free ↦ inl (guarded fails s free)
          | inr same ↦ inr (λ was. ground (arith, same, was))
        ])

  pub delete_user-Safe : (actor id : ℕ) → Safe (delete_user svc fails actor id s).1
  delete_user-Safe actor id = delete_user_cases cr svc fails HasAdmin s v actor id λ e found why.
      removed-Safe id e s.users s.next_id found
        (elim why [ inl free ↦ inl (guarded fails s free) | inr same ↦ inr (ground (arith, same)) ])
        v
