-- ===== src/Auth/Guard.antt =====
-- Two updates at once: the guard of the last administrator counts before the row is written, and
-- there is no transaction around both, so another request may write in between.
use blackgrid.Prelude.{
  ℕ, String, ◌≡◌, ◌≢◌, refl, sym, ap, ◌∙◌, Bool, true, false, none, some, arith, count_if,
  update_by, KeysBelow, update_by-KeysBelow, find_by-update_by_other, count_if-update_by_lost,
}
use text.Mathlib.Text.{◌==◌ as str_eq}
use text.Mathlib.TextPositions.{eq_refl}
use blackgrid.Model.{User}
use blackgrid.Auth.{
  Crypto, AuthService, AuthStore, AuthQuery, update_user_row, count_enabled_admins,
  is_enabled_admin, count_admins, user_id_of, find_user,
}
use blackgrid.Auth.Users.{
  UpdateUserInput, updated_user, would_lose_admin, guard_last_admin, write_user, update_password,
}

module _ (cr : Crypto) (svc : AuthService) (fails : AuthQuery → Bool) (actor : ℕ) where
  written-users :
      (id : ℕ) (p : UpdateUserInput) (u : User) (s : AuthStore)
      → fails update_user_row ≡ false
      → str_eq p.password "" ≡ true
      → (write_user cr svc fails actor id p u s).1.users
        ≡ update_by user_id_of id (updated_user p) s.users
  unfolding write_user update_password
  written-users id p u s works blank = ground (arith, works, blank)

  blank : (r : String) → r ≡ "" → str_eq r "" ≡ true
  blank r e = ap (λ w. str_eq w "") e ∙ eq_refl ""

  lost :
      (p : UpdateUserInput) (u : User)
      → would_lose_admin p ≡ true
      → is_enabled_admin (updated_user p u) ≡ false
  lost p u h = ground (arith, h)

  -- Two updates at once can take the last two administrators: where exactly two users are enabled
  -- administrators and each of two requests, without a password, takes the role or the enabling of
  -- one of them, the guard lets both pass if both count before either writes, and no enabled
  -- administrator is left when both have written.
  pub guard_last_admin-write_user :
      (a b : ℕ) (p q : UpdateUserInput) (u v : User) (s : AuthStore)
      → KeysBelow user_id_of s.next_id s.users
      → count_admins s ≡ 2
      → a ≢ b
      → find_user a s ≡ some u
      → find_user b s ≡ some v
      → is_enabled_admin u ≡ true
      → is_enabled_admin v ≡ true
      → would_lose_admin p ≡ true
      → would_lose_admin q ≡ true
      → p.password ≡ ""
      → q.password ≡ ""
      → fails count_enabled_admins ≡ false
      → fails update_user_row ≡ false
      → (guard_last_admin fails s ≡ none)
        × (count_admins
              (write_user cr svc fails actor b q v (write_user cr svc fails actor a p u s).1).1
            ≡ 0)
  unfolding guard_last_admin
  guard_last_admin-write_user a b p q u v s distinct two apart ua vb was_u was_v loses_p loses_q
        blank_p blank_q counts writes =
      let first = written-users a p u s writes (blank p.password blank_p) in
      let s1 = (write_user cr svc fails actor a p u s).1 in
      let second = written-users b q v s1 writes (blank q.password blank_q) in
      let users1 = update_by user_id_of a (updated_user p) s.users in
      let one_left =
        count_if-update_by_lost user_id_of a (updated_user p) is_enabled_admin s.next_id s.users u
          distinct ua was_u (lost p u loses_p) in
      let still =
        find_by-update_by_other user_id_of a (updated_user p) b s.users (λ x. refl)
          (λ e. apart (sym e))
        ∙ vb in
      let none_left =
        count_if-update_by_lost user_id_of b (updated_user q) is_enabled_admin s.next_id users1 v
          (update_by-KeysBelow user_id_of a (updated_user p) s.next_id s.users (λ x. refl) distinct)
          still was_v (lost q v loses_q) in
      (
        ground (arith, counts, two),
        ap (count_if is_enabled_admin) (second ∙ ap (update_by user_id_of b (updated_user q)) first)
            ∙ omega (arith, one_left, none_left, two),
      )
