-- ===== src/IntBuilder/Select.antt =====
-- `mux` and `is_zero`.
use native.Mathlib.Nat.{pow-suc}
use mettle.Base.{
  ℕ, zero, suc, ◌*◌, ◌≡◌, refl, ap, ◌∙◌, arith, Bool, true, false, not, List, [], ◌∷◌, map, length,
  length-map, if◌then◌else◌, ◌↔◌,
}
use mettle.Base.Int.{pos, pos_part, neg_part, eq_of_parts}
use mettle.Solve.Models.{Valuation}
use mettle.Circuit
use mettle.Circuit.{CircuitBool, const, lit, bool_not}
use mettle.Circuit.Conjunction.{some_true}
use mettle.Circuit.Model.{
  Ready, Total, Denotes, bit, bits, bool_value, same-Total, self-Denotes, pure-Total, bind-Total,
  later, cost_le,
}
use mettle.Circuit.Operations.{ite-Total, or_many-Total, not-Denotes, cons-Denotes, nil-Denotes}
use mettle.Circuit.Yields.{Yields, total-Yields}
use mettle.IntBuilder.{IntVal, mux, is_zero}
use mettle.IntBuilder.Adder.{tail_minted}
use mettle.IntBuilder.Value.{unsigned, signed}
use mettle.IntBuilder.Wrapping.{signed_at, halves}
use mettle.IntBuilder.Signed.{int, IsInt}

pub mux-Total :
    (n : ℕ) {s : Circuit.Circuit} (c : CircuitBool) (xs ys : List CircuitBool)
    {f : Valuation → Bool}
    → Denotes bit s c f
    → (bits n).minted s.cnf.num_vars xs
    → (bits n).minted s.cnf.num_vars ys
    → Total
        (bits n)
        s
        (n * 3)
        (mux n c xs ys)
        (λ ρ. if f ρ then map (bool_value ρ) xs else map (bool_value ρ) ys)
unfolding mux
mux-Total zero c [] [] {f} d hx hy = same-Total (λ ρ m. either (f ρ)) (pure-Total nil-Denotes)
  where
    either : (b : Bool) → ◌≡◌ {A = List Bool} [] (if b then [] else [])
    either true = refl
    either false = refl
mux-Total zero c (a ∷ xs) ys d hx hy = absurd (omega (arith, hx.0))
mux-Total zero c [] (b ∷ ys) d hx hy = absurd (omega (arith, hy.0))
mux-Total (suc n) c [] ys d hx hy = absurd (omega (arith, hx.0))
mux-Total (suc n) c (a ∷ xs) [] d hx hy = absurd (omega (arith, hy.0))
mux-Total (suc n) {s} c (a ∷ xs) (b ∷ ys) {f} d hx hy = cost_le (omega arith) (
    same-Total
      (λ ρ m.
        choose (f ρ) (bool_value ρ a) (bool_value ρ b) (map (bool_value ρ) xs)
          (map (bool_value ρ) ys))
      (bind-Total
        (ite-Total c d (self-Denotes {x = bit} {s = s} hx.1.0)
          (self-Denotes {x = bit} {s = s} hy.1.0))
        λ x t e dx.
          bind-Total
            (mux-Total n c xs ys (later e d) (tail_minted a xs e hx) (tail_minted b ys e hy))
            λ rest u i dr. pure-Total (cons-Denotes (later i dx) dr)))
  where
    choose :
        (b x y : Bool) (l r : List Bool)
        → (if b then x else y) ∷ (if b then l else r) ≡ (if b then x ∷ l else y ∷ r)
    choose true x y l r = refl
    choose false x y l r = refl

pub is_zero-Total :
    {s : Circuit.Circuit} {w : ℕ} (a : IntVal)
    → IsInt s w a
    → Total bit s 1 (is_zero a) (λ ρ. not (some_true (map (bool_value ρ) a)))
unfolding is_zero
is_zero-Total a h =
    cost_le (omega arith)
      (bind-Total (or_many-Total (self-Denotes h)) λ x t e d. pure-Total (not-Denotes d))

pub some_true_iff : (bs : List Bool) → (not (some_true bs) ≡ true) ↔ (unsigned bs ≡ 0)
some_true_iff [] = ground arith
some_true_iff (b ∷ bs) = ground (arith, some_true_iff bs)

-- For a vector of m + 1 minted bits, in a well-formed state with room for one variable, is_zero
-- returns, and in every model the result is true exactly when the integer is 0.
pub is_zero_decides :
    (m : ℕ) (a : IntVal) {s : Circuit.Circuit}
    → IsInt s (suc m) a
    → Ready 1 s
    → Yields bit s 1 (is_zero a) (λ ρ r. (r ≡ true) ↔ (int ρ a ≡ pos 0))
is_zero_decides m a h =
    total-Yields (λ ρ r. (r ≡ true) ↔ (int ρ a ≡ pos 0))
      (λ ρ _. zero_int (map (bool_value ρ) a) (length-map a (bool_value ρ) ∙ h.0))
      (is_zero-Total a h)
  where
    zero_int :
        (xs : List Bool) → length xs ≡ suc m → (not (some_true xs) ≡ true) ↔ (signed xs ≡ pos 0)
    zero_int xs e = (
      λ h.
          eq_of_parts (signed xs) (pos 0)
            (ground (arith, some_true_iff xs, signed_at m xs e, halves m xs e, pow-suc 2 m)),
      λ h. (some_true_iff xs).1 (
          ground
            (arith, signed_at m xs e, halves m xs e, pow-suc 2 m, ap pos_part h, ap neg_part h)),
    )
