-- ===== src/IntBuilder/Signed.antt =====
-- `add_signed`, `sub_signed` and `negate`: the result and the overflow flag against the exact sum,
-- difference and negation.
use native.Mathlib.Nat.{pow-suc}
use mettle.Base.{
  ℕ, suc, ◌+◌, ◌*◌, ◌^◌, ◌≡◌, refl, ap, ◌∙◌, arith, Bool, true, false, not, xor, List, [], ◌∷◌, map,
  length, length-map, All,
}
use mettle.Base.Int.{ℤ, pos_part, neg_part, ◌+ℤ◌, ◌-ℤ◌, +ℤ_parts, -ℤ_parts}
use mettle.Solve.Models.{Valuation}
use mettle.Circuit
use mettle.Circuit.{CircuitBool, bool_not, const}
use mettle.Circuit.Model.{
  Total, Ready, bit, bits, both, bool_value, IsMintedBool, pure-Total, later, bind-Total, pair,
  first, second,
}
use mettle.Circuit.Operations.{xor-Total, const-Denotes, bool_value-not, bool_not-IsMinted}
use mettle.Circuit.Yields.{Yields, total-Yields}
use mettle.IntBuilder.{IntVal, add_signed, sub_signed}
use mettle.IntBuilder.Adder.{add_digits, Through, carry_loop-Total}
use mettle.IntBuilder.Value.{unsigned, top, signed, pairs}
use mettle.IntBuilder.Wrapping.{Wraps, add_digits-Wraps, signed_at}

-- The integer that a vector of bits stands for.
abbrev pub int : Valuation → IntVal → ℤ
int ρ a = signed (map (bool_value ρ) a)

-- A vector of `w` bits of the state.
abbrev pub IsInt : Circuit.Circuit → ℕ → IntVal → Type 0
IsInt s w a = (length a ≡ w) × All (IsMintedBool s.cnf.num_vars) a

pub plain : Through (λ b. b) (λ b. b)
plain = record { minted = λ n b h. h; value = λ ρ b. refl }

pub negated : Through bool_not not
negated = record { minted = bool_not-IsMinted; value = bool_value-not }

-- The digits of the result and the overflow flag.
abbrev pub with_flag : List Bool × (Bool × Bool) → List Bool × Bool
with_flag r = (r.0, xor r.1.1 r.1.0)

abbrev pub chain_cost : ℕ → ℕ
chain_cost w = w * 9 + 3

module _ {s : Circuit.Circuit} (w : ℕ) (a b : IntVal) (ha : IsInt s w a) (hb : IsInt s w b) where
  pub add_signed-Total : Total (both (bits w) bit) s (chain_cost w) (add_signed w a b) (λ ρ.
      with_flag (add_digits w (map (bool_value ρ) a) (map (λ y. bool_value ρ y) b) false false))
  unfolding add_signed
  add_signed-Total =
      bind-Total (carry_loop-Total plain w a b ha hb (const-Denotes false) (const-Denotes false))
        λ r t e d.
          bind-Total
            (xor-Total r.1.1 r.1.0 (second bit bit (second (bits w) (both bit bit) d))
              (first bit bit (second (bits w) (both bit bit) d)))
            λ o u f do_. pure-Total (pair (later f (first (bits w) (both bit bit) d)) do_)

  pub sub_signed-Total : Total (both (bits w) bit) s (chain_cost w) (sub_signed w a b) (λ ρ.
      with_flag
        (add_digits w (map (bool_value ρ) a) (map (λ y. not (bool_value ρ y)) b) true false))
  unfolding sub_signed
  sub_signed-Total =
      bind-Total (carry_loop-Total negated w a b ha hb (const-Denotes true) (const-Denotes false))
        λ r t e d.
          bind-Total
            (xor-Total r.1.1 r.1.0 (second bit bit (second (bits w) (both bit bit) d))
              (first bit bit (second (bits w) (both bit bit) d)))
            λ o u f do_. pure-Total (pair (later f (first (bits w) (both bit bit) d)) do_)

-- For two vectors of m + 1 minted bits, in a well-formed state with room for the adder's
-- variables, add_signed returns m + 1 minted bits and a flag in a well-formed state that extends
-- the first one, and in every model of its formula the flag is set exactly when the exact sum
-- leaves the range of m + 1 bits, while the bits stand for the sum, off by 2^(m+1) when the flag
-- is set.
pub add_signed-Wraps :
    (m : ℕ) (a b : IntVal) {s : Circuit.Circuit}
    → IsInt s (suc m) a
    → IsInt s (suc m) b
    → Ready (chain_cost (suc m)) s
    → Yields
        (both (bits (suc m)) bit)
        s
        (chain_cost (suc m))
        (add_signed (suc m) a b)
        (λ ρ r. Wraps m (int ρ a +ℤ int ρ b) r.0 r.1)
add_signed-Wraps m a b ha hb ready =
    total-Yields (λ ρ r. Wraps m (int ρ a +ℤ int ρ b) r.0 r.1)
      (λ ρ _.
        add_digits-Wraps
          (pairs (suc m) (map (bool_value ρ) a) (map (λ y. bool_value ρ y) b)
            (length-map a (bool_value ρ) ∙ ha.0) (length-map b (bool_value ρ) ∙ hb.0))
          false false (int ρ a +ℤ int ρ b) (omega (arith, +ℤ_parts (int ρ a) (int ρ b))))
      (add_signed-Total (suc m) a b ha hb) ready

unsigned-not : (bs : List Bool) → unsigned (map not bs) + unsigned bs + 1 ≡ 2 ^ length bs
unsigned-not [] = refl
unsigned-not (b ∷ bs) = ground (arith, unsigned-not bs, pow-suc 2 (length bs))

top-not : (b : Bool) (bs : List Bool) → top (map not (b ∷ bs)) ≡ not (top (b ∷ bs))
top-not b [] = refl
top-not b (c ∷ bs) = top-not c bs

-- Inverting the digits of x gives -x - 1.
pub signed-not :
    (m : ℕ) (bs : List Bool)
    → length bs ≡ suc m
    → pos_part (signed (map not bs)) + pos_part (signed bs) + 1
      ≡ neg_part (signed (map not bs)) + neg_part (signed bs)
signed-not m [] h = absurd (omega arith)
signed-not m (b ∷ bs) h = ground (
  arith,
  signed_at m (b ∷ bs) h,
  signed_at m (map not (b ∷ bs)) (length-map (b ∷ bs) not ∙ h),
  unsigned-not (b ∷ bs),
  top-not b bs,
  ap (λ (n : ℕ). 2 ^ n) h,
)

map-not_value :
    (ρ : Valuation) (b : List CircuitBool)
    → map (λ y. not (bool_value ρ y)) b ≡ map not (map (bool_value ρ) b)
map-not_value ρ [] = refl
map-not_value ρ (y ∷ b) = ap (λ bs. not (bool_value ρ y) ∷ bs) (map-not_value ρ b)

-- The same as for add_signed, for sub_signed and the exact difference.
pub sub_signed-Wraps :
    (m : ℕ) (a b : IntVal) {s : Circuit.Circuit}
    → IsInt s (suc m) a
    → IsInt s (suc m) b
    → Ready (chain_cost (suc m)) s
    → Yields
        (both (bits (suc m)) bit)
        s
        (chain_cost (suc m))
        (sub_signed (suc m) a b)
        (λ ρ r. Wraps m (int ρ a -ℤ int ρ b) r.0 r.1)
sub_signed-Wraps m a b ha hb ready =
    total-Yields (λ ρ r. Wraps m (int ρ a -ℤ int ρ b) r.0 r.1)
      (λ ρ _.
        let nb : length (map (bool_value ρ) b) ≡ suc m = length-map b (bool_value ρ) ∙ hb.0 in
        rw (map-not_value ρ b) (
          add_digits-Wraps
            (pairs (suc m) (map (bool_value ρ) a) (map not (map (bool_value ρ) b))
              (length-map a (bool_value ρ) ∙ ha.0) (length-map (map (bool_value ρ) b) not ∙ nb))
            true false (int ρ a -ℤ int ρ b)
            (omega (arith, -ℤ_parts (int ρ a) (int ρ b), signed-not m (map (bool_value ρ) b) nb))))
      (sub_signed-Total (suc m) a b ha hb) ready
