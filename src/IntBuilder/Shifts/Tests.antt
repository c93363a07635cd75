-- ===== src/IntBuilder/Shifts/Tests.antt =====
-- The right shift of a two-bit vector by another.
use mettle.Base.{◌≡◌, refl, arith, ◌*◌, ◌/◌, ◌^◌, [], ◌∷◌, map, take, some, true, false}
use mettle.Solve.{var}
use mettle.Circuit.{lit, const, ite}
use mettle.Circuit.Model.{bits, bool_value}
use mettle.Circuit.Tests.{four, four-Ready}
use mettle.Circuit.Yields.{Yields}
use mettle.IntBuilder.{IntVal, mux}
use mettle.IntBuilder.Signed.{IsInt}
use mettle.IntBuilder.Value.{unsigned}
use mettle.IntBuilder.Shifts.{shr, sha, shift_mask_width}
use mettle.IntBuilder.Shifts.Mask.{IsCeilLog}
use mettle.IntBuilder.Shifts.Right.{shr_lem}

abbrev x : IntVal
x = lit 0 ∷ lit 2 ∷ []

abbrev y : IntVal
y = lit 4 ∷ lit 6 ∷ []

x-IsInt : IsInt four 2 x
unfolding var
x-IsInt = (refl, (omega arith, (omega arith, tt)))

y-IsInt : IsInt four 2 y
unfolding var
y-IsInt = (refl, (omega arith, (omega arith, tt)))

mask_of_two : shift_mask_width 2 ≡ 1
unfolding shift_mask_width
mask_of_two = refl

sha_fills :
    sha 2 (const false ∷ const true ∷ []) (const true ∷ const false ∷ []) four
    ≡ some (const true ∷ const true ∷ [], four)
unfolding sha mux ite
sha_fills = refl

shr_example :
    IsCeilLog 2 (shift_mask_width 2)
    × Yields (bits 2) four (shift_mask_width 2 * 6) (shr 2 x y) (λ ρ r.
      unsigned r
      ≡ unsigned (map (bool_value ρ) x)
        / 2 ^ unsigned (map (bool_value ρ) (take (shift_mask_width 2) y)))
unfolding shift_mask_width
shr_example = shr_lem 2 x y x-IsInt y-IsInt (four-Ready 6 (omega arith))
