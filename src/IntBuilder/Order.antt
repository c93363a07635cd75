-- ===== src/IntBuilder/Order.antt =====
-- The comparison gates against the order and the equality of the integers.
use native.Mathlib.Nat.{pow-suc}
use mettle.Base.{
  ℕ, zero, suc, ◌+◌, ◌*◌, ◌≡◌, ap, ap₂, ◌∙◌, arith, Bool, true, false, beq, List, [], ◌∷◌, map,
  length, length-map, ◌↔◌,
}
use mettle.Base.Int.{pos_part, neg_part, ltb_ℤ, ◌<ℤ◌, ◌≤ℤ◌, ltb_ℤ_iff, not-ltb_ℤ_iff, eq_of_parts}
use mettle.Solve.Models.{Valuation}
use mettle.Circuit
use mettle.Circuit.{CircuitBool, bool_not, const}
use mettle.Circuit.Conjunction.{every}
use mettle.Circuit.Model.{
  Total, Ready, bit, bits, bool_value, pure-Total, later, bind-Total, cost_le, self-Denotes,
  same-Total,
}
use mettle.Circuit.Operations.{
  and_many-Total, iff_Total, const-Denotes, not-Denotes, cons-Denotes, nil-Denotes,
}
use mettle.Circuit.Yields.{Yields, total-Yields}
use mettle.IntBuilder.{IntVal, eq_loop, eq, signed_lt, signed_le, signed_gt, signed_ge, unsigned_lt}
use mettle.IntBuilder.Adder.{tail_minted}
use mettle.IntBuilder.Value.{unsigned, signed, Pairs, pairs, nil, cons}
use mettle.IntBuilder.Wrapping.{signed_at, halves}
use mettle.IntBuilder.Signed.{int, IsInt}
use mettle.IntBuilder.Compare.{borrow_digits, borrow_loop-Total, flip_at-Total, flipped_order}

abbrev equal_digits : List Bool → List Bool → List Bool
equal_digits (x ∷ xs) (y ∷ ys) = beq x y ∷ equal_digits xs ys
equal_digits _ _ = []

eq_loop-Total :
    (n : ℕ) {s : Circuit.Circuit} (xs ys : List CircuitBool)
    → (bits n).minted s.cnf.num_vars xs
    → (bits n).minted s.cnf.num_vars ys
    → Total
        (bits n)
        s
        (n * 3)
        (eq_loop n xs ys)
        (λ ρ. equal_digits (map (bool_value ρ) xs) (map (bool_value ρ) ys))
unfolding eq_loop
eq_loop-Total zero [] ys hx hy = pure-Total nil-Denotes
eq_loop-Total zero (a ∷ xs) ys hx hy = absurd (omega (arith, hx.0))
eq_loop-Total (suc n) [] ys hx hy = absurd (omega (arith, hx.0))
eq_loop-Total (suc n) (a ∷ xs) [] hx hy = absurd (omega (arith, hy.0))
eq_loop-Total (suc n) {s} (a ∷ xs) (b ∷ ys) hx hy = cost_le (omega arith) (
    bind-Total
      (iff_Total a b (self-Denotes {x = bit} {s = s} hx.1.0)
        (self-Denotes {x = bit} {s = s} hy.1.0))
      λ r t e d.
        bind-Total (eq_loop-Total n xs ys (tail_minted a xs e hx) (tail_minted b ys e hy))
          λ parts u f ds. pure-Total (cons-Denotes (later f d) ds))

pub eq-Total :
    (w : ℕ) {s : Circuit.Circuit} (a b : IntVal)
    → IsInt s w a
    → IsInt s w b
    → Total bit s
        (w * 3 + 1)
        (eq w a b)
        (λ ρ. every (equal_digits (map (bool_value ρ) a) (map (bool_value ρ) b)))
unfolding eq
eq-Total w a b ha hb = bind-Total (eq_loop-Total w a b ha hb) λ parts t e d. and_many-Total d

every-equal_digits :
    {n : ℕ} {xs ys : List Bool}
    → Pairs n xs ys
    → (every (equal_digits xs ys) ≡ true) ↔ (unsigned xs ≡ unsigned ys)
every-equal_digits nil = ground arith
every-equal_digits (cons x y p) = ground (arith, every-equal_digits p)

-- The integer determines the digits.
signed_injective :
    (m : ℕ) (xs ys : List Bool)
    → length xs ≡ suc m
    → length ys ≡ suc m
    → (unsigned xs ≡ unsigned ys) ↔ (signed xs ≡ signed ys)
signed_injective m xs ys hx hy = (
  λ e.
      eq_of_parts (signed xs) (signed ys)
        (ground (arith, signed_at m xs hx, signed_at m ys hy, halves m xs hx, halves m ys hy)),
  λ e. ground (
    arith,
    signed_at m xs hx,
    signed_at m ys hy,
    halves m xs hx,
    halves m ys hy,
    pow-suc 2 m,
    ap pos_part e,
    ap neg_part e,
  ),
)

-- For two vectors of m + 1 minted bits, in a well-formed state with room for 3 (m + 1) + 1
-- variables, eq returns, and in every model the result is true exactly when the integers are
-- equal.
pub eq_decides :
    (m : ℕ) (a b : IntVal) {s : Circuit.Circuit}
    → IsInt s (suc m) a
    → IsInt s (suc m) b
    → Ready (suc m * 3 + 1) s
    → Yields bit s (suc m * 3 + 1) (eq (suc m) a b) (λ ρ r. (r ≡ true) ↔ (int ρ a ≡ int ρ b))
eq_decides m a b ha hb ready =
    total-Yields (λ ρ r. (r ≡ true) ↔ (int ρ a ≡ int ρ b)) (λ ρ _. decided ρ)
      (eq-Total (suc m) a b ha hb) ready
  where
    decided :
        (ρ : Valuation)
        → (every (equal_digits (map (bool_value ρ) a) (map (bool_value ρ) b)) ≡ true)
          ↔ (int ρ a ≡ int ρ b)
    decided ρ =
        let na : length (map (bool_value ρ) a) ≡ suc m = length-map a (bool_value ρ) ∙ ha.0 in
        let nb : length (map (bool_value ρ) b) ≡ suc m = length-map b (bool_value ρ) ∙ hb.0 in
        let digits = every-equal_digits (pairs (suc m) _ _ na nb) in
        let ints = signed_injective m _ _ na nb in
        (λ h. ints.0 (digits.0 h), λ h. digits.1 (ints.1 h))

pub signed_lt-Total :
    (m : ℕ) {s : Circuit.Circuit} (a b : IntVal)
    → IsInt s (suc m) a
    → IsInt s (suc m) b
    → Total bit s (suc m * 4) (signed_lt (suc m) a b) (λ ρ. ltb_ℤ (int ρ a) (int ρ b))
unfolding signed_lt unsigned_lt
signed_lt-Total m a b ha hb = cost_le (omega arith) (
    bind-Total (flip_at-Total m a ha) λ af t e da.
      bind-Total (flip_at-Total m b ((bits (suc m)).mono _ _ b e.grows hb)) λ bf u f db.
        same-Total
          (λ ρ i.
            ap₂ (λ xs ys. borrow_digits xs ys false) ((later f da).value ρ i) (db.value ρ i)
            ∙ flipped_order m _ _ (length-map a (bool_value ρ) ∙ ha.0)
                (length-map b (bool_value ρ) ∙ hb.0))
          (borrow_loop-Total (suc m) af bf (later f da).minted db.minted (const-Denotes false)))

module _ (m : ℕ) {s : Circuit.Circuit} (a b : IntVal) (ha : IsInt s (suc m) a)
    (hb : IsInt s (suc m) b) where
  lt_decides :
      Ready (suc m * 4) s
      → Yields bit s (suc m * 4) (signed_lt (suc m) a b) (λ ρ r. (r ≡ true) ↔ (int ρ a <ℤ int ρ b))
  lt_decides =
      total-Yields (λ ρ r. (r ≡ true) ↔ (int ρ a <ℤ int ρ b)) (λ ρ _. ltb_ℤ_iff (int ρ a) (int ρ b))
        (signed_lt-Total m a b ha hb)

  gt_decides :
      Ready (suc m * 4) s
      → Yields bit s (suc m * 4) (signed_gt (suc m) a b) (λ ρ r. (r ≡ true) ↔ (int ρ b <ℤ int ρ a))
  unfolding signed_gt
  gt_decides =
      total-Yields (λ ρ r. (r ≡ true) ↔ (int ρ b <ℤ int ρ a)) (λ ρ _. ltb_ℤ_iff (int ρ b) (int ρ a))
        (signed_lt-Total m b a hb ha)

  le_decides :
      Ready (suc m * 4) s
      → Yields bit s (suc m * 4) (signed_le (suc m) a b) (λ ρ r. (r ≡ true) ↔ (int ρ a ≤ℤ int ρ b))
  unfolding signed_le
  le_decides =
      total-Yields (λ ρ r. (r ≡ true) ↔ (int ρ a ≤ℤ int ρ b))
        (λ ρ _. not-ltb_ℤ_iff (int ρ b) (int ρ a))
        (cost_le (omega arith)
          (bind-Total (signed_lt-Total m b a hb ha) λ x t e d. pure-Total (not-Denotes d)))

  ge_decides :
      Ready (suc m * 4) s
      → Yields bit s (suc m * 4) (signed_ge (suc m) a b) (λ ρ r. (r ≡ true) ↔ (int ρ b ≤ℤ int ρ a))
  unfolding signed_ge
  ge_decides =
      total-Yields (λ ρ r. (r ≡ true) ↔ (int ρ b ≤ℤ int ρ a))
        (λ ρ _. not-ltb_ℤ_iff (int ρ a) (int ρ b))
        (cost_le (omega arith)
          (bind-Total (signed_lt-Total m a b ha hb) λ x t e d. pure-Total (not-Denotes d)))

-- For two vectors of m + 1 minted bits, in a well-formed state with room for 4 (m + 1) variables,
-- signed_lt, signed_le, signed_gt and signed_ge each return, and in every model the result is true
-- exactly when the integers stand in that order.
pub comparisons_decide :
    (m : ℕ) (a b : IntVal) {s : Circuit.Circuit}
    → IsInt s (suc m) a
    → IsInt s (suc m) b
    → Ready (suc m * 4) s
    → Yields bit s (suc m * 4) (signed_lt (suc m) a b) (λ ρ r. (r ≡ true) ↔ (int ρ a <ℤ int ρ b))
      × Yields bit s (suc m * 4) (signed_le (suc m) a b) (λ ρ r. (r ≡ true) ↔ (int ρ a ≤ℤ int ρ b))
      × Yields bit s (suc m * 4) (signed_gt (suc m) a b) (λ ρ r. (r ≡ true) ↔ (int ρ b <ℤ int ρ a))
      × Yields bit s (suc m * 4) (signed_ge (suc m) a b) (λ ρ r. (r ≡ true) ↔ (int ρ b ≤ℤ int ρ a))
comparisons_decide m a b ha hb r = (
  lt_decides m a b ha hb r,
  le_decides m a b ha hb r,
  gt_decides m a b ha hb r,
  ge_decides m a b ha hb r,
)
