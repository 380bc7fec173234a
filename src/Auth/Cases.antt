-- ===== src/Auth/Cases.antt =====
-- How the calls of AuthService leave the table of users: a predicate that holds before the call, and
-- after each way in which the call writes, holds after it.
use blackgrid.Prelude.{
  ℕ, String, Bool, true, false, ◌≡◌, ◌⊎◌, ◌&&◌, none, some, List, ◌∷◌, arith, inl, inr,
  Option-cases, Bool-cases, suc, update_by, remove_by,
}
use blackgrid.Model.{admin, User}
use blackgrid.Auth.{
  Crypto, AuthService, AuthStore, AuthQuery, is_admin, user_id_of, email_taken, find_user,
  update_user_where, AuthError, AuditEntry, entry_by, system_entry, database_error, create_user_row,
}
use blackgrid.Auth.Users.{
  UpdateUserInput, CreateUserInput, updated_user, with_password, would_lose_admin, create_row,
  create_user, create_first_admin, update_password, write_user, update_user, remove_user,
  delete_user, guard_last_admin, new_user,
}

module _ {κ} (cr : Crypto) (svc : AuthService) (fails : AuthQuery → Bool)
    (P : List User → ℕ → Type κ) (s : AuthStore) (h : P s.users s.next_id) where
  abbrev Holds : AuthStore → Type κ
  Holds t = P t.users t.next_id

  create_row_cases :
      (duplicate : AuthError) (entry : ℕ → AuditEntry) (u : User)
      → P (u ∷ s.users) (suc s.next_id)
      → Holds (create_row svc fails duplicate entry u s).1
  unfolding create_row
  create_row_cases duplicate entry u done = ground (arith, h, done)

  pub create_user_cases :
      (actor : ℕ) (p : CreateUserInput)
      → ((hash : String)
          → P
              (new_user s.next_id (cr.lower_trim p.email) p.display_name hash p.role p.enabled
                ∷ s.users)
              (suc s.next_id))
      → Holds (create_user cr svc fails actor p s).1
  unfolding create_user
  create_user_cases actor p done = elim (Option-cases (cr.hash_password p.password)) [
    | inl e ↦ ground (arith, e, h)
    | inr (hash, e) ↦ ground (
      arith,
      e,
      h,
      create_row_cases email_taken (λ id. entry_by "user.create" "user" id actor)
          (new_user s.next_id (cr.lower_trim p.email) p.display_name hash p.role p.enabled)
          (done hash),
    )
  ]

  pub create_first_admin_cases :
      (email display_name password : String)
      → ((hash : String)
          → P
              (new_user s.next_id (cr.lower_trim email) display_name hash admin true ∷ s.users)
              (suc s.next_id))
      → Holds (create_first_admin cr svc fails email display_name password s).1
  unfolding create_first_admin
  create_first_admin_cases email display_name password done =
      elim (Option-cases (cr.hash_password password)) [
        | inl e ↦ ground (arith, e, h)
        | inr (hash, e) ↦ ground (
          arith,
          e,
          h,
          create_row_cases (database_error create_user_row) (system_entry "user.create")
              (new_user s.next_id (cr.lower_trim email) display_name hash admin true) (done hash),
        )
      ]

  pub update_password_cases :
      (actor : ℕ) (password : String) (u : User)
      → ((hash : String) → P (update_by user_id_of u.id (with_password hash) s.users) s.next_id)
      → Holds (update_password cr svc fails actor password u s).1
  unfolding update_password
  update_password_cases actor password u done = elim (Option-cases (cr.hash_password password)) [
    | inl e ↦ ground (arith, e, h)
    | inr (hash, e) ↦ ground (arith, e, h, done hash)
  ]

  pub remove_user_cases :
      (actor id : ℕ)
      → P (remove_by user_id_of id s.users) s.next_id
      → Holds (remove_user svc fails actor id s).1
  unfolding remove_user
  remove_user_cases actor id done = ground (arith, h, done)

  pub write_user_cases :
      (actor id : ℕ) (p : UpdateUserInput) (existing : User)
      → Holds
          (update_password cr svc fails actor p.password
            (updated_user p existing)
            (update_user_where id (updated_user p) s)).1
      → Holds (write_user cr svc fails actor id p existing s).1
  unfolding write_user
  write_user_cases actor id p existing done = ground (arith, h, done)

  pub update_user_cases :
      (actor id : ℕ) (p : UpdateUserInput)
      → ((existing : User)
          → find_user id s ≡ some existing
          → (guard_last_admin fails s ≡ none)
            ⊎ ((is_admin existing.role && would_lose_admin p) ≡ false)
          → Holds (write_user cr svc fails actor id p existing s).1)
      → Holds (update_user cr svc fails actor id p s).1
  unfolding update_user
  update_user_cases actor id p done = elim (Option-cases (find_user id s)) [
    | inl e ↦ ground (arith, e, h)
    | inr (u, e) ↦ elim (Bool-cases (is_admin u.role && would_lose_admin p)) [
      | inr same ↦ ground (arith, e, h, same, done u e (inr same))
      | inl loses ↦ elim (Option-cases (guard_last_admin fails s)) [
        | inl free ↦ ground (arith, e, h, loses, free, done u e (inl free))
        | inr (why, held) ↦ ground (arith, e, h, loses, held)
      ]
    ]
  ]

  pub delete_user_cases :
      (actor id : ℕ)
      → ((existing : User)
          → find_user id s ≡ some existing
          → (guard_last_admin fails s ≡ none) ⊎ (is_admin existing.role ≡ false)
          → P (remove_by user_id_of id s.users) s.next_id)
      → Holds (delete_user svc fails actor id s).1
  unfolding delete_user
  delete_user_cases actor id done = elim (Option-cases (find_user id s)) [
    | inl e ↦ ground (arith, e, h)
    | inr (u, e) ↦ elim (Bool-cases (is_admin u.role)) [
      | inr same ↦ ground (arith, e, h, same, remove_user_cases actor id (done u e (inr same)))
      | inl loses ↦ elim (Option-cases (guard_last_admin fails s)) [
        | inl free ↦
            ground (arith, e, h, loses, free, remove_user_cases actor id (done u e (inl free)))
        | inr (why, held) ↦ ground (arith, e, h, loses, held)
      ]
    ]
  ]
