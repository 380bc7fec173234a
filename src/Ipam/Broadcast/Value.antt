-- ===== src/Ipam/Broadcast/Value.antt =====
-- The loop over the bytes computes the last address of the block.
use blackgrid.Prelude.{ℕ, zero, suc, ◌+◌, ◌-◌, ◌*◌, ◌/◌, ◌^◌, ◌≤◌, ◌<◌, ◌≡◌, Upto, Upto-elim, arith}
use blackgrid.Ipam.Broadcast.{Bytes, as_4, from_4, set_host_bit, set_host_bits, broadcast_value}

-- The address `n` with its `i` low bits set.
abbrev pub filled : ℕ → ℕ → ℕ
filled n i = n / 2 ^ i * 2 ^ i + (2 ^ i - 1)

abbrev Holds : ℕ → Bytes → Type 0
Holds v b = (from_4 b ≡ v) × (b.b0 < 256) × (b.b1 < 256) × (b.b2 < 256) × (b.b3 < 256)

abbrev Sets : ℕ → Type 0
Sets i =
    (n : ℕ) (b0 b1 b2 b3 : ℕ)
    → Holds (filled n i) (record { b0 = b0; b1 = b1; b2 = b2; b3 = b3 })
    → Holds (filled n (suc i)) (set_host_bit i (record { b0 = b0; b1 = b1; b2 = b2; b3 = b3 }))

-- One round of the loop sets one more bit, whichever byte it stands in.
every_round : Upto Sets 32
unfolding set_host_bit from_4
every_round = omega arith

rounds : (n i : ℕ) → n < 2 ^ 32 → i ≤ 32 → Holds (filled n i) (set_host_bits i (as_4 n))
unfolding set_host_bits
rounds n zero h k = unfold as_4 from_4 in omega arith
rounds n (suc i) h k =
    Upto-elim Sets 32 every_round i (omega arith) n _ _ _ _ (rounds n i h (omega arith))

pub broadcast_value_lem : (n i : ℕ) → n < 2 ^ 32 → i ≤ 32 → broadcast_value n i ≡ filled n i
unfolding broadcast_value
broadcast_value_lem n i h k = (rounds n i h k).0
