-- ===== src/IntBuilder/Adder.antt =====
-- The full adder and the carry chains compute the pure adder on the bits' values.
use mettle.Base.{
  ℕ, zero, suc, ◌*◌, ◌≡◌, arith, Bool, true, false, xor, ◌&&◌, ◌||◌, List, [], ◌∷◌, map,
  if◌then◌else◌, ◌==◌,
}
use mettle.Solve.Models.{Valuation}
use mettle.Circuit
use mettle.Circuit.{CircuitBool, M, bool_not}
use mettle.Circuit.Model.{
  Denotes, Total, bit, bits, both, bool_value, IsMintedBool, Extends, pure-Total, cost_le, later,
  bind-Total, pair, first, second, self-Denotes,
}
use mettle.Circuit.Operations.{and_Total, or_Total, xor-Total, cons-Denotes, nil-Denotes}
use mettle.IntBuilder.{full_add, carry_loop}

abbrev pub sum_digit : Bool → Bool → Bool → Bool
sum_digit a b c = xor (xor a b) c

abbrev pub carry_digit : Bool → Bool → Bool → Bool
carry_digit a b c = (a && b) || (c && xor a b)

-- Addition of `n` binary digits with a carry: the digits of the sum, the carry out, and the carry
-- into the last digit.
abbrev pub add_digits : ℕ → List Bool → List Bool → Bool → Bool → List Bool × (Bool × Bool)
add_digits zero xs ys c into = ([], (c, into))
add_digits (suc n) (x ∷ xs) (y ∷ ys) c into =
    let r = add_digits n xs ys (carry_digit x y c) (if n == 0 then c else into) in
    (sum_digit x y c ∷ r.0, r.1)
add_digits (suc n) _ _ c into = ([], (c, into))

pub full_add-Total :
    {s : Circuit.Circuit} (a b c : CircuitBool) {g h i : Valuation → Bool}
    → Denotes bit s a g
    → Denotes bit s b h
    → Denotes bit s c i
    → Total
        (both bit bit)
        s
        9
        (full_add a b c)
        (λ ρ. (sum_digit (g ρ) (h ρ) (i ρ), carry_digit (g ρ) (h ρ) (i ρ)))
unfolding full_add
full_add-Total a b c da db dc = bind-Total (xor-Total a b da db) λ axb t e dx.
    bind-Total (xor-Total axb c dx (later e dc)) λ sum u f ds.
      bind-Total (and_Total (later f (later e da)) (later f (later e db))) λ ab v p dab.
        bind-Total (and_Total (later p (later f (later e dc))) (later p (later f dx))) λ cx w q dcx.
          bind-Total (or_Total (later q dab) dcx)
            λ carry z r dcarry. pure-Total (pair (later r (later q (later p ds))) dcarry)

-- What a chain does to the second operand's bits, on circuit bits and on truth values.
pub record Through (f : CircuitBool → CircuitBool) (f' : Bool → Bool) : Type 0 where
  pub minted : (n : ℕ) (b : CircuitBool) → IsMintedBool n b → IsMintedBool n (f b)
  pub value : (ρ : Valuation) (b : CircuitBool) → bool_value ρ (f b) ≡ f' (bool_value ρ b)

pub Through-Denotes :
    {f : CircuitBool → CircuitBool} {f' : Bool → Bool} {s : Circuit.Circuit} {b : CircuitBool}
    → Through f f'
    → IsMintedBool s.cnf.num_vars b
    → Denotes bit s (f b) (λ ρ. f' (bool_value ρ b))
Through-Denotes {s} {b} th h = record {
  minted = th.minted s.cnf.num_vars b h;
  value = λ ρ m. th.value ρ b;
}

pub tail_minted :
    {k n : ℕ} (x : CircuitBool) (xs : List CircuitBool) {s t : Circuit.Circuit}
    → Extends k s t
    → (bits (suc n)).minted s.cnf.num_vars (x ∷ xs)
    → (bits n).minted t.cnf.num_vars xs
tail_minted {n} x xs {s} {t} e h =
    (bits n).mono s.cnf.num_vars t.cnf.num_vars xs e.grows (omega (arith, h.0), h.1.1)

pub choose-Denotes :
    {s : Circuit.Circuit} (x : Bool) {a b : CircuitBool} {g h : Valuation → Bool}
    → Denotes bit s a g
    → Denotes bit s b h
    → Denotes bit s (if x then a else b) (λ ρ. if x then g ρ else h ρ)
choose-Denotes true d e = d
choose-Denotes false d e = e

module _ {f : CircuitBool → CircuitBool} {f' : Bool → Bool} (through : Through f f') where
  pub carry_loop-Total :
      (n : ℕ) {s : Circuit.Circuit} (xs ys : List CircuitBool) {c into : CircuitBool}
      {i j : Valuation → Bool}
      → (bits n).minted s.cnf.num_vars xs
      → (bits n).minted s.cnf.num_vars ys
      → Denotes bit s c i
      → Denotes bit s into j
      → Total (both (bits n) (both bit bit)) s (n * 9) (carry_loop f n xs ys c into) (λ ρ.
        add_digits n (map (bool_value ρ) xs) (map (λ b. f' (bool_value ρ b)) ys) (i ρ) (j ρ))
  unfolding carry_loop
  carry_loop-Total zero xs ys hx hy dc dj = pure-Total (pair nil-Denotes (pair dc dj))
  carry_loop-Total (suc n) [] ys hx hy dc dj = absurd (omega (arith, hx.0))
  carry_loop-Total (suc n) (a ∷ xs) [] hx hy dc dj = absurd (omega (arith, hy.0))
  carry_loop-Total (suc n) {s} (a ∷ xs) (b ∷ ys) {c} {into} {i} {j} hx hy dc dj =
      cost_le (omega arith) (
        bind-Total
          (full_add-Total a (f b) c (self-Denotes hx.1.0) (Through-Denotes through hy.1.0) dc)
          λ r t e d.
            bind-Total
              (carry_loop-Total n xs ys (tail_minted a xs e hx) (tail_minted b ys e hy)
                (second bit bit d) (later e (choose-Denotes (n == 0) dc dj)))
              λ q u k dq. pure-Total (
                pair (cons-Denotes (later k (first bit bit d)) (first (bits n) (both bit bit) dq))
                  (second (bits n) (both bit bit) dq)))
