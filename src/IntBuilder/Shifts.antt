-- ===== src/IntBuilder/Shifts.antt =====
-- The right shifts of crates/als-core/src/encode/int.rs, a barrel over the low bits of the amount, with
-- `shift_mask_width` of crates/als-core/src/overflow_guard.rs.
pub mod Mask
pub mod Right
mod Tests
use mettle.Base.{
  ℕ, zero, suc, ◌+◌, ◌-◌, ◌/◌, ◌^◌, false, List, [], ◌∷◌, Option, none, some, if◌then◌else◌, ◌==◌,
  ltb, leb, tabulate, get_or, get_elem?,
}
use mettle.Circuit.{CircuitBool, const, M, pure, ◌>>=◌}
use mettle.IntBuilder.{IntVal, mux, fault}

-- The number of binary digits: the width of the word less `leading_zeros`. Halving ends within `n`
-- turns.
unfoldable pub bit_length : ℕ → ℕ → ℕ
bit_length zero n = 0
bit_length (suc fuel) n = let rest = bit_length fuel (n / 2) in if n == 0 then 0 else suc rest

unfoldable pub shift_mask_width : ℕ → ℕ
unfolding bit_length
shift_mask_width w = if leb w 1 then 0 else bit_length (w - 1) (w - 1)

unfoldable pub shift_right_bits : List CircuitBool → ℕ → ℕ → CircuitBool → List CircuitBool
shift_right_bits bits sh width fill =
    tabulate width (λ k. if ltb (k + sh) width then get_or bits (k + sh) fill else fill)

-- The loop of `shift_right` with `n` rounds to go, at the bit `i` of the amount.
unfoldable pub shift_right_loop :
    ℕ → CircuitBool → ℕ → ℕ → List CircuitBool → List CircuitBool → M IntVal
unfolding shift_right_bits
shift_right_loop w fill zero i amount s = pure s
shift_right_loop w fill (suc n) i [] s = fault
shift_right_loop w fill (suc n) i (c ∷ amount) s = do
  next ← mux w c (shift_right_bits s (2 ^ i) w fill) s
  shift_right_loop w fill n (i + 1) amount next

unfoldable pub shift_right : ℕ → IntVal → IntVal → CircuitBool → M IntVal
unfolding shift_mask_width shift_right_loop
shift_right w a b fill = shift_right_loop w fill (shift_mask_width w) 0 b a

-- The sign bit fills; width 0 is a panic.
abbrev pub with_sign : (CircuitBool → M IntVal) → Option CircuitBool → M IntVal
with_sign f none = fault
with_sign f (some sign) = f sign

unfoldable pub sha : ℕ → IntVal → IntVal → M IntVal
unfolding shift_right
sha zero a b = fault
sha (suc msb) a b = with_sign (λ sign. shift_right (suc msb) a b sign) (get_elem? a msb)

unfoldable pub shr : ℕ → IntVal → IntVal → M IntVal
unfolding shift_right
shr w a b = shift_right w a b (const false)
