-- ===== src/IntBuilder/Shifts/Mask.antt =====
-- `shift_mask_width` of crates/als-core/src/overflow_guard.rs against its comment, ceil(log2 w).
use mettle.Base.{
  power_suc, ℕ, zero, suc, ◌-◌, ◌/◌, ◌^◌, ◌≤◌, ◌<◌, arith, Bool-cases, ◌==◌, leb, ◌⊎◌, inl, inr,
}
use mettle.IntBuilder.Shifts.{bit_length, shift_mask_width}

-- `m` is the least exponent with `w` at most its power of 2.
abbrev pub IsCeilLog : ℕ → ℕ → Type 0
IsCeilLog w m = (w ≤ 2 ^ m) × ((k : ℕ) → (m ≤ k) ⊎ (2 ^ k < w))

bit_length-lt : (fuel n : ℕ) → n ≤ fuel → n < 2 ^ bit_length fuel n
unfolding bit_length
bit_length-lt zero n h = omega arith
bit_length-lt (suc fuel) n h = elim (Bool-cases (n == 0)) [
  | inl e ↦ rw e (ground (arith, e))
  | inr e ↦
      let more : 0 < n = ground (arith, e) in
      let half = bit_length-lt fuel (n / 2) (omega (arith, h, more)) in
      rw e (omega (arith, half, power_suc (bit_length fuel (n / 2))))
]

bit_length-least : (fuel n k : ℕ) → (bit_length fuel n ≤ k) ⊎ (2 ^ k ≤ n)
unfolding bit_length
bit_length-least zero n k = inl (omega arith)
bit_length-least (suc fuel) n zero = elim (Bool-cases (n == 0)) [
  | inl e ↦ rw e (inl (omega arith))
  | inr e ↦ inr (ground (arith, e))
]
bit_length-least (suc fuel) n (suc k) = elim (Bool-cases (n == 0)) [
  | inl e ↦ rw e (inl (omega arith))
  | inr e ↦ elim (bit_length-least fuel (n / 2) k) [
    | inl l ↦ rw e (inl (omega (arith, l)))
    | inr l ↦ inr (omega (arith, l, power_suc k))
  ]
]

pub shift_mask_width-IsCeilLog : (w : ℕ) → IsCeilLog w (shift_mask_width w)
unfolding shift_mask_width
shift_mask_width-IsCeilLog w = elim (Bool-cases (leb w 1)) [
  | inl e ↦ rw e (ground (arith, e), λ k. inl (omega arith))
  | inr e ↦
      let more : 1 < w = ground (arith, e) in
      rw e (
        omega (arith, more, bit_length-lt (w - 1) (w - 1) (omega arith)),
        λ k. elim (bit_length-least (w - 1) (w - 1) k) [
          | inl l ↦ inl l
          | inr l ↦ inr (omega (arith, more, l))
        ],
      )
]
