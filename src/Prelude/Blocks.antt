-- ===== src/Prelude/Blocks.antt =====
-- Powers of two and the blocks of numbers that share a quotient.
use Prim.Native.Nat.{ℕ, zero, suc, ◌+◌, ◌*◌, ◌/◌, ◌^◌, ◌≤◌, ◌<◌}
use mathlib.Core.Path.{◌≡◌}
use native.Mathlib.Nat.{one-le-pow, pow-suc}
use native.Mathlib.Omega.{arith}

pub pow_pos : (h : ℕ) → 0 < 2 ^ h
pow_pos h = one-le-pow h 2 (omega arith)

pub pow-add : (a b : ℕ) → 2 ^ (a + b) ≡ 2 ^ a * 2 ^ b
pow-add zero b = grind arith
pow-add (suc a) b = grind (arith, pow-add a b, pow-suc 2 (a + b), pow-suc 2 a)

pub div_in_block : (q s m : ℕ) → q * s ≤ m → m < q * s + s → m / s ≡ q
div_in_block q s m lo hi = grind arith

pub div_past_block : (q s : ℕ) → 0 < s → (q * s + s) / s ≡ q + 1
div_past_block q s h = grind arith

pub block_of : (n s : ℕ) → 0 < s → (n / s * s ≤ n) × (n < n / s * s + s)
block_of n s h = grind arith

pub block_fits : (n s t : ℕ) → 0 < s → n < t * s → n / s * s + s ≤ t * s
block_fits n s t h k = grind arith
