-- ===== src/Incident/Rows.antt =====
-- Laws of the queries on `incidents`: what is found, and what an update by id changes.
use blackgrid.Prelude.{
  ℕ, ◌+◌, ◌≤◌, ◌<◌, ◌==◌, ◌≡◌, refl, subst, ◌⊎◌, inl, inr, Bool, true, Option-cases, if◌then◌else◌,
  none, some, List, [], ◌∷◌, find_if, count_if, All, arith,
}
use blackgrid.Model.{Incident}
use blackgrid.Incident.Store.{latest, update_where}

abbrev pub In : Incident → List Incident → Type 0
In i [] = ⊥
In i (j ∷ is) = (j ≡ i) ⊎ In i is

-- Ids fall along the table, newest first, and stay below the next one.
abbrev pub Below : ℕ → List Incident → Type 0
Below n [] = Unit {0}
Below n (i ∷ is) = (i.id < n) × Below i.id is

abbrev pub bit : Bool → ℕ
bit b = if b then 1 else 0

pub Below-In : (n : ℕ) (is : List Incident) (i : Incident) → Below n is → In i is → i.id < n
Below-In n [] i b r = elim r [ ]
Below-In n (j ∷ is) i b (inl e) = ground arith
Below-In n (j ∷ is) i b (inr r) = ground (arith, Below-In j.id is i b.1 r)

pub All-In {κ} :
    (P : Incident → Type κ) (is : List Incident) (i : Incident) → All P is → In i is → P i
All-In P [] i h r = elim r [ ]
All-In P (j ∷ is) i h (inl e) = subst P e h.0
All-In P (j ∷ is) i h (inr r) = All-In P is i h.1 r

pub latest-none :
    (p : Incident → Bool) (is : List Incident) → latest p is ≡ none → count_if p is ≡ 0
latest-none p [] e = refl
latest-none p (i ∷ is) e = ground (arith, latest-none p is)

pub latest-some :
    (p : Incident → Bool) (is : List Incident) (i : Incident)
    → latest p is ≡ some i
    → In i is × (p i ≡ true)
latest-some p [] i e = cc
latest-some p (j ∷ is) i e = elim (Option-cases (latest p is)) [
  | inl nothing ↦ ground (arith, nothing)
  | inr (k, found) ↦ ground (arith, found, latest-some p is k found)
]

pub find_if-some :
    (p : Incident → Bool) (is : List Incident) (i : Incident)
    → find_if p is ≡ some i
    → In i is × (p i ≡ true)
find_if-some p [] i e = cc
find_if-some p (j ∷ is) i e = ground (arith, find_if-some p is i)

module _ (id : ℕ) (f : Incident → Incident) where
  pub update_where-above :
      (n : ℕ) (is : List Incident) → Below n is → n ≤ id → update_where id f is ≡ is
  update_where-above n [] b h = refl
  update_where-above n (i ∷ is) b h = ground (arith, update_where-above i.id is b.1)

  pub update_where-Below :
      ((i : Incident) → (f i).id ≡ i.id)
      → (n : ℕ) (is : List Incident) → Below n is
      → Below n (update_where id f is)
  update_where-Below keep n [] b = tt
  update_where-Below keep n (i ∷ is) b = ground (arith, keep i, update_where-Below keep i.id is b.1)

  changed : (i c : Incident) → i ≡ c → c.id ≡ id → f c ≡ (if i.id == id then f i else i)
  changed i c e same = ground arith

  kept : (c i : Incident) → c.id < i.id → c.id ≡ id → i ≡ (if i.id == id then f i else i)
  kept c i h same = ground arith

  -- An update of one row moves a count by what that row counts before and after.
  pub count_if-update_where :
      (q : Incident → Bool) (n : ℕ) (is : List Incident) (c : Incident)
      → Below n is
      → In c is
      → c.id ≡ id
      → count_if q (update_where id f is) + bit (q c) ≡ count_if q is + bit (q (f c))
  count_if-update_where q n [] c b r same = elim r [ ]
  count_if-update_where q n (i ∷ is) c b (inl e) same =
      ground (arith, update_where-above i.id is b.1)
  count_if-update_where q n (i ∷ is) c b (inr r) same =
      ground (arith, Below-In i.id is c b.1 r, count_if-update_where q i.id is c b.1 r same)

  -- What holds of every row holds after the update of a row, if it holds of that row.
  pub update_where-All {κ} :
      (P : Incident → Type κ) (n : ℕ) (is : List Incident) (c : Incident)
      → Below n is
      → In c is
      → c.id ≡ id
      → P (f c)
      → All P is
      → All P (update_where id f is)
  update_where-All P n [] c b r same new h = elim r [ ]
  update_where-All P n (i ∷ is) c b (inl e) same new h =
      rw (update_where-above i.id is b.1 (ground arith)) (subst P (changed i c e same) new, h.1)
  update_where-All P n (i ∷ is) c b (inr r) same new h = (
    subst P (kept c i (Below-In i.id is c b.1 r) same) h.0,
    update_where-All P i.id is c b.1 r same new h.1,
  )

-- A row is found by its id.
pub find_if-In :
    (n : ℕ) (is : List Incident) (c : Incident)
    → Below n is
    → In c is
    → find_if (λ i. i.id == c.id) is ≡ some c
find_if-In n [] c b r = elim r [ ]
find_if-In n (i ∷ is) c b (inl e) = ground arith
find_if-In n (i ∷ is) c b (inr r) =
    ground (arith, Below-In i.id is c b.1 r, find_if-In i.id is c b.1 r)
