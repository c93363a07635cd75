-- ===== src/IntBuilder/Tests.antt =====
-- The integer gates at two-bit vectors over a pool of four variables.
use mettle.Base.{◌≡◌, ◌↔◌, refl, arith, true, false, [], ◌∷◌, map}
use mettle.Base.Int.{pos, negsuc, ◌+ℤ◌, ◌-ℤ◌, ◌<ℤ◌, ◌≤ℤ◌}
use mettle.Solve.{var}
use mettle.Solve.Models.{Valuation}
use mettle.Circuit.{const, lit}
use mettle.Circuit.Model.{bit, bits, both, bool_value}
use mettle.Circuit.Tests.{four, four-Ready}
use mettle.Circuit.Yields.{Yields}
use mettle.IntBuilder.{
  IntVal, constant, add_signed, sub_signed, negate, eq, signed_lt, signed_le, signed_gt, signed_ge,
  int_card,
}
use mettle.IntBuilder.Signed.{int, IsInt, add_signed-Wraps, sub_signed-Wraps}
use mettle.IntBuilder.Wrapping.{Wraps, InRange}
use mettle.IntBuilder.Order.{eq_decides, comparisons_decide}
use mettle.IntBuilder.Constants.{int-constant, negate-Wraps, negate_one_bit}
use mettle.IntBuilder.Cardinality.{int_card-Counts, Counts, count_true}

-- The bits are the variables 0 and 1, and 2 and 3.
abbrev x : IntVal
x = lit 0 ∷ lit 2 ∷ []

abbrev y : IntVal
y = lit 4 ∷ lit 6 ∷ []

x-IsInt : IsInt four 2 x
unfolding var
x-IsInt = (refl, (omega arith, (omega arith, tt)))

y-IsInt : IsInt four 2 y
unfolding var
y-IsInt = (refl, (omega arith, (omega arith, tt)))

add_signed_example :
    Yields
      (both (bits 2) bit)
      four
      21
      (add_signed 2 x y)
      (λ ρ r. Wraps 1 (int ρ x +ℤ int ρ y) r.0 r.1)
add_signed_example = add_signed-Wraps 1 x y x-IsInt y-IsInt (four-Ready 21 (omega arith))

sub_signed_example :
    Yields
      (both (bits 2) bit)
      four
      21
      (sub_signed 2 x y)
      (λ ρ r. Wraps 1 (int ρ x -ℤ int ρ y) r.0 r.1)
sub_signed_example = sub_signed-Wraps 1 x y x-IsInt y-IsInt (four-Ready 21 (omega arith))

negate_example :
    Yields (both (bits 2) bit) four 21 (negate 2 x) (λ ρ r. Wraps 1 (pos 0 -ℤ int ρ x) r.0 r.1)
negate_example = negate-Wraps 1 x (omega arith) (omega arith) x-IsInt (four-Ready 21 (omega arith))

negate_one_bit_example :
    Yields
      (both (bits 1) bit)
      four
      12
      (negate 1 (const true ∷ []))
      (λ ρ r. (r.1 ≡ true) ↔ InRange 0 (pos 0 -ℤ int ρ (const true ∷ [])))
negate_one_bit_example =
    negate_one_bit (const true ∷ []) (refl, (tt, tt)) (four-Ready 12 (omega arith))

eq_example : Yields bit four 7 (eq 2 x y) (λ ρ r. (r ≡ true) ↔ (int ρ x ≡ int ρ y))
eq_example = eq_decides 1 x y x-IsInt y-IsInt (four-Ready 7 (omega arith))

comparisons_example :
    Yields bit four 8 (signed_lt 2 x y) (λ ρ r. (r ≡ true) ↔ (int ρ x <ℤ int ρ y))
    × Yields bit four 8 (signed_le 2 x y) (λ ρ r. (r ≡ true) ↔ (int ρ x ≤ℤ int ρ y))
    × Yields bit four 8 (signed_gt 2 x y) (λ ρ r. (r ≡ true) ↔ (int ρ y <ℤ int ρ x))
    × Yields bit four 8 (signed_ge 2 x y) (λ ρ r. (r ≡ true) ↔ (int ρ y ≤ℤ int ρ x))
comparisons_example = comparisons_decide 1 x y x-IsInt y-IsInt (four-Ready 8 (omega arith))

int_card_example :
    Yields
      (both (bits 2) bit)
      four
      28
      (int_card 2 x)
      (λ ρ r. Counts 1 (count_true (map (bool_value ρ) x)) r.0 r.1)
int_card_example = int_card-Counts 1 x x-IsInt.1 (four-Ready 28 (omega arith))

no_model : Valuation
no_model v = false

int-constant_example : int no_model (constant (negsuc 1) 2) ≡ negsuc 1
int-constant_example = int-constant no_model 1 (negsuc 1) (omega arith) (omega arith, omega arith)
