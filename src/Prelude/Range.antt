-- ===== src/Prelude/Range.antt =====
-- Finite ranges of numbers: a statement for every number below a bound, and lists of successors.
use Prim.Native.Nat.{ℕ, zero, suc, ◌+◌, ◌<◌}
use mathlib.Core.Path.{◌≡◌, refl, subst}
use mathlib.Core.Logic.{◌⊎◌, inl, inr}
use mathlib.Core.List.{List, [], ◌∷◌}
use native.Mathlib.Omega.{arith}
use blackgrid.Prelude.Lists.{length}

-- `P 0 × … × P (n - 1)`, so that one tactic call proves every case of a small range.
abbrev pub Upto : (ℕ → Type 0) → ℕ → Type 0
Upto P zero = Unit
Upto P (suc n) = Upto P n × P n

lt_suc_cases : (i n : ℕ) → i < suc n → (i < n) ⊎ (n ≡ i)
lt_suc_cases i n h = grind arith

pub Upto-elim : (P : ℕ → Type 0) (n : ℕ) → Upto P n → (i : ℕ) → i < n → P i
Upto-elim P zero u i h = elim h [ ]
Upto-elim P (suc n) u i h = elim (lt_suc_cases i n h) [
  | inl below ↦ Upto-elim P n u.0 i below
  | inr same ↦ subst P same u.1
]

-- lo, lo + 1, …, with `n` entries.
abbrev pub range : ℕ → ℕ → List ℕ
range lo zero = []
range lo (suc n) = lo ∷ range (lo + 1) n

pub length-range : (lo n : ℕ) → length (range lo n) ≡ n
length-range lo zero = refl
length-range lo (suc n) = omega (arith, length-range (lo + 1) n)
