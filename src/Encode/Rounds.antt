-- ===== src/Encode/Rounds.antt =====
-- The rounds of the closure: their power of 2 is at least the number of atoms.
use mettle.Base.{
  power_suc, ℕ, zero, suc, ◌-◌, ◌/◌, ◌^◌, ◌≤◌, ◌<◌, arith, Bool-cases, ◌==◌, leb, inl, inr,
}
use mettle.Encode.Square.{digit_count, log2_ceil}

-- A number below 2 to the power of the fuel is below 2 to the power of its digits.
digit_count_lem : (fuel n : ℕ) → n < 2 ^ fuel → n < 2 ^ digit_count fuel n
unfolding digit_count
digit_count_lem zero n h = h
digit_count_lem (suc fuel) n h = elim (Bool-cases (n == 0)) [
  | inl e ↦ rw e (ground (arith, e))
  | inr e ↦
      let half : n / 2 < 2 ^ digit_count fuel (n / 2) =
        digit_count_lem fuel (n / 2) (omega (arith, h, power_suc fuel)) in
      rw e (omega (arith, half, power_suc (digit_count fuel (n / 2))))
]

-- For a number of atoms that fits a word, 2 to the power of log2_ceil is at least the number.
pub log2_ceil_lem : (n : ℕ) → n ≤ 2 ^ 64 → n ≤ 2 ^ log2_ceil n
unfolding log2_ceil
log2_ceil_lem n h = elim (Bool-cases (leb n 1)) [
  | inl e ↦ rw e (ground (arith, e))
  | inr e ↦
      let more : 1 < n = ground (arith, e) in
      let below : n - 1 < 2 ^ digit_count 64 (n - 1) =
        digit_count_lem 64 (n - 1) (omega (arith, h, more)) in
      rw e (omega (arith, below))
]
