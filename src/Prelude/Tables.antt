-- ===== src/Prelude/Tables.antt =====
-- Tables as lists of rows with a key, newest first: the statements UPDATE and DELETE by key, and what
-- they do to the number of rows that pass a test.
use Prim.Native.Nat.{ℕ, suc, ◌≤◌, ◌<◌}
use mathlib.Core.Path.{◌≡◌, refl, sym, subst}
use mathlib.Core.Logic.{◌≢◌, inl, inr}
use mathlib.Core.Bool.{Bool, true, false}
use mathlib.Core.Option.{Option, none, some}
use mathlib.Core.List.{List, [], ◌∷◌}
use native.Mathlib.Omega.{arith}
use blackgrid.Prelude.Tests.{◌==◌, if◌then◌else◌, Bool-cases}
use blackgrid.Prelude.Lists.{All, count_if, find_if}

module _ {A : Type 0} (key : A → ℕ) where
  abbrev pub find_by : ℕ → List A → Option A
  find_by k xs = find_if (λ x. key x == k) xs

  abbrev pub update_by : ℕ → (A → A) → List A → List A
  update_by k f [] = []
  update_by k f (x ∷ xs) = (if key x == k then f x else x) ∷ update_by k f xs

  abbrev pub remove_by : ℕ → List A → List A
  remove_by k [] = []
  remove_by k (x ∷ xs) = let rest = remove_by k xs in if key x == k then rest else x ∷ rest

  -- Keys fall along the table and stay below the next one.
  abbrev pub KeysBelow : ℕ → List A → Type 0
  KeysBelow n [] = Unit {0}
  KeysBelow n (x ∷ xs) = (key x < n) × KeysBelow (key x) xs

  pub KeysBelow-raise : (m n : ℕ) (xs : List A) → m ≤ n → KeysBelow m xs → KeysBelow n xs
  KeysBelow-raise m n [] h b = tt
  KeysBelow-raise m n (x ∷ xs) h b = (omega (arith, h, b.0), b.1)

  find_if-below :
      (p : A → Bool) (n : ℕ) (xs : List A) (e : A)
      → KeysBelow n xs
      → find_if p xs ≡ some e
      → key e < n
  find_if-below p n [] e b found = cc
  find_if-below p n (x ∷ xs) e b found = ground (arith, find_if-below p (key x) xs e b.1)

  -- A row that is found by some test is found by its key.
  pub find_by-find_if :
      (p : A → Bool) (n : ℕ) (xs : List A) (e : A)
      → KeysBelow n xs
      → find_if p xs ≡ some e
      → find_by (key e) xs ≡ some e
  find_by-find_if p n [] e b found = cc
  find_by-find_if p n (x ∷ xs) e b found =
      ground (arith, find_by-find_if p (key x) xs e b.1, find_if-below p (key x) xs e b.1)

  pub find_by-key : (k : ℕ) (xs : List A) (e : A) → find_by k xs ≡ some e → key e ≡ k
  find_by-key k [] e found = cc
  find_by-key k (x ∷ xs) e found = ground (arith, find_by-key k xs e)

  module _ (k : ℕ) where
    pub remove_by-above : (n : ℕ) (xs : List A) → KeysBelow n xs → n ≤ k → remove_by k xs ≡ xs
    remove_by-above n [] b h = refl
    remove_by-above n (x ∷ xs) b h = ground (arith, remove_by-above (key x) xs b.1)

    pub remove_by-KeysBelow : (n : ℕ) (xs : List A) → KeysBelow n xs → KeysBelow n (remove_by k xs)
    remove_by-KeysBelow n [] b = tt
    remove_by-KeysBelow n (x ∷ xs) b =
        ground
          (arith, remove_by-KeysBelow (key x) xs b.1, KeysBelow-raise (key x) n (remove_by k xs))

    pub count_if-remove_by :
        (p : A → Bool) (n : ℕ) (xs : List A)
        → KeysBelow n xs
        → count_if p xs ≤ suc (count_if p (remove_by k xs))
    count_if-remove_by p n [] b = omega arith
    count_if-remove_by p n (x ∷ xs) b =
        ground (arith, count_if-remove_by p (key x) xs b.1, remove_by-above (key x) xs b.1)

    pub count_if-remove_by_outside :
        (p : A → Bool) (n : ℕ) (xs : List A) (e : A)
        → KeysBelow n xs
        → find_by k xs ≡ some e
        → p e ≡ false
        → count_if p xs ≤ count_if p (remove_by k xs)
    count_if-remove_by_outside p n [] e b found h = omega arith
    count_if-remove_by_outside p n (x ∷ xs) e b found h =
        ground
          (arith, count_if-remove_by_outside p (key x) xs e b.1, remove_by-above (key x) xs b.1)

    pub All-remove_by : (P : A → Type 0) (xs : List A) → All P xs → All P (remove_by k xs)
    All-remove_by P [] h = h
    All-remove_by P (x ∷ xs) h = ground (arith, h.0, All-remove_by P xs h.1)

  module _ (k : ℕ) (f : A → A) where
    pub update_by-above : (n : ℕ) (xs : List A) → KeysBelow n xs → n ≤ k → update_by k f xs ≡ xs
    update_by-above n [] b h = refl
    update_by-above n (x ∷ xs) b h = ground (arith, update_by-above (key x) xs b.1)

    pub update_by-KeysBelow :
        (n : ℕ) (xs : List A)
        → ((x : A) → key (f x) ≡ key x)
        → KeysBelow n xs
        → KeysBelow n (update_by k f xs)
    update_by-KeysBelow n [] same b = tt
    update_by-KeysBelow n (x ∷ xs) same b =
        ground (arith, same x, update_by-KeysBelow (key x) xs same b.1)

    pub count_if-update_by :
        (p : A → Bool) (n : ℕ) (xs : List A)
        → KeysBelow n xs
        → count_if p xs ≤ suc (count_if p (update_by k f xs))
    count_if-update_by p n [] b = omega arith
    count_if-update_by p n (x ∷ xs) b =
        ground (arith, count_if-update_by p (key x) xs b.1, update_by-above (key x) xs b.1)

    -- No row passes the test before and fails it after.
    pub count_if-update_by_kept :
        (p : A → Bool) (n : ℕ) (xs : List A) (e : A)
        → KeysBelow n xs
        → find_by k xs ≡ some e
        → (p e ≡ true → p (f e) ≡ true)
        → count_if p xs ≤ count_if p (update_by k f xs)
    count_if-update_by_kept p n [] e b found h = omega arith
    count_if-update_by_kept p n (x ∷ xs) e b found h =
        ground (arith, count_if-update_by_kept p (key x) xs e b.1, update_by-above (key x) xs b.1)

    pub count_if-update_by_same :
        (p : A → Bool) (xs : List A)
        → ((x : A) → p (f x) ≡ p x)
        → count_if p (update_by k f xs) ≡ count_if p xs
    count_if-update_by_same p [] same = refl
    count_if-update_by_same p (x ∷ xs) same =
        ground (arith, same x, count_if-update_by_same p xs same)

    pub find_by-update_by :
        (xs : List A) (e : A)
        → ((x : A) → key (f x) ≡ key x)
        → find_by k xs ≡ some e
        → find_by k (update_by k f xs) ≡ some (f e)
    find_by-update_by [] e same found = cc
    find_by-update_by (x ∷ xs) e same found = ground (arith, same x, find_by-update_by xs e same)

    -- A test that no row passed before the row `e` was changed.
    pub find_if-update_by_new :
        (p : A → Bool) (xs : List A) (e : A)
        → find_by k xs ≡ some e
        → find_if p xs ≡ none
        → p (f e) ≡ true
        → find_if p (update_by k f xs) ≡ some (f e)
    find_if-update_by_new p [] e found fresh h = cc
    find_if-update_by_new p (x ∷ xs) e found fresh h = elim (Bool-cases (key x == k)) [
      | inl here ↦
          let is : e ≡ x = ground (arith, here, found) in
          subst (λ a. p (f a) ≡ true → find_if p (update_by k f (x ∷ xs)) ≡ some (f a)) (sym is)
            (λ q. ground (arith, here, q)) h
      | inr there ↦ ground (arith, there, find_if-update_by_new p xs e)
    ]

    -- Only the row that is found changes.
    pub All-update_by :
        (P : A → Type 0) (n : ℕ) (xs : List A) (e : A)
        → KeysBelow n xs
        → All P xs
        → find_by k xs ≡ some e
        → P (f e)
        → All P (update_by k f xs)
    All-update_by P n [] e b h found v = cc
    All-update_by P n (x ∷ xs) e b h found v = elim (Bool-cases (key x == k)) [
      | inl here ↦
          let same : update_by k f xs ≡ xs =
            update_by-above (key x) xs b.1 (ground (arith, here)) in
          let is : e ≡ x = ground (arith, here, found) in
          rw (here, same) (subst (λ a. P (f a)) is v, h.1)
      | inr there ↦
          rw there (h.0, All-update_by P (key x) xs e b.1 h.1 (ground (arith, there, found)) v)
    ]

    -- The key of the row that is found is `k`, and the update does not touch what the test reads.
    pub find_if-update_by :
        (p : A → Bool) (xs : List A) (e : A)
        → ((x : A) → p (f x) ≡ p x)
        → key e ≡ k
        → find_if p xs ≡ some e
        → find_if p (update_by k f xs) ≡ some (f e)
    find_if-update_by p [] e same at_k found = cc
    find_if-update_by p (x ∷ xs) e same at_k found =
        ground (arith, same x, find_if-update_by p xs e same at_k)

    pub find_by-update_by_other :
        (j : ℕ) (xs : List A)
        → ((x : A) → key (f x) ≡ key x)
        → j ≢ k
        → find_by j (update_by k f xs) ≡ find_by j xs
    find_by-update_by_other j [] same apart = refl
    find_by-update_by_other j (x ∷ xs) same apart =
        ground (arith, same x, find_by-update_by_other j xs same apart)

    -- No row passes the test after that did not before.
    pub count_if-update_by_fewer :
        (p : A → Bool) (xs : List A)
        → ((x : A) → p (f x) ≡ true → p x ≡ true)
        → count_if p (update_by k f xs) ≤ count_if p xs
    count_if-update_by_fewer p [] h = omega arith
    count_if-update_by_fewer p (x ∷ xs) h = ground (arith, h x, count_if-update_by_fewer p xs h)

    -- The row that is found does not pass the test after, unless it did before.
    pub count_if-update_by_passed :
        (p : A → Bool) (n : ℕ) (xs : List A) (e : A)
        → KeysBelow n xs
        → find_by k xs ≡ some e
        → (p (f e) ≡ true → p e ≡ true)
        → count_if p (update_by k f xs) ≤ count_if p xs
    count_if-update_by_passed p n [] e b found was = cc
    count_if-update_by_passed p n (x ∷ xs) e b found was =
        ground
          (arith, was, count_if-update_by_passed p (key x) xs e b.1, update_by-above (key x) xs b.1)

    -- The row passes the test before and fails it after.
    pub count_if-update_by_lost :
        (p : A → Bool) (n : ℕ) (xs : List A) (e : A)
        → KeysBelow n xs
        → find_by k xs ≡ some e
        → p e ≡ true
        → p (f e) ≡ false
        → suc (count_if p (update_by k f xs)) ≡ count_if p xs
    count_if-update_by_lost p n [] e b found was is = cc
    count_if-update_by_lost p n (x ∷ xs) e b found was is =
        ground (arith, count_if-update_by_lost p (key x) xs e b.1, update_by-above (key x) xs b.1)
