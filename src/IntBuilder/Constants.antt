-- ===== src/IntBuilder/Constants.antt =====
-- `constant`, and `negate`, which adds the constant 1 to the inverted digits.
use native.Mathlib.Nat.{pow-suc, one-le-pow, div-div-eq-div-mul}
use mettle.Base.{
  ap₂, ◌≤◌, ℕ, zero, suc, ◌+◌, ◌/◌, ◌%◌, ◌^◌, ◌<◌, ◌≡◌, refl, sym, ap, fun_ext, ◌∙◌, arith, Bool,
  true, false, not, List, [], ◌∷◌, map, length, length-map, All, tabulate, ◌==◌, ◌↔◌,
}
use mettle.Base.Int.{ℤ, pos, negsuc, pos_part, neg_part, ◌-ℤ◌, -ℤ_parts, eq_of_parts}
use mettle.Solve.Models.{Valuation}
use mettle.Circuit
use mettle.Circuit.{CircuitBool, const, bool_not}
use mettle.Circuit.Model.{
  Ready, Total, Denotes, bit, bits, both, bool_value, IsMintedBool, same-Total, self-Denotes,
}
use mettle.Circuit.Operations.{not_all_denote}
use mettle.Circuit.Yields.{Yields, total-Yields}
use mettle.IntBuilder.{IntVal, constant, bit_of, negate, invert}
use mettle.IntBuilder.Adder.{add_digits}
use mettle.IntBuilder.Value.{unsigned, signed, pairs}
use mettle.IntBuilder.Wrapping.{Wraps, InRange, add_digits-Wraps, signed_at, halves}
use mettle.IntBuilder.Signed.{int, IsInt, chain_cost, with_flag, add_signed-Total, signed-not}

pub length-tabulate {ℓ} : {A : Type ℓ} (n : ℕ) (f : ℕ → A) → length (tabulate n f) ≡ n
length-tabulate zero f = refl
length-tabulate (suc n) f = ap suc (length-tabulate n (λ k. f (suc k)))

pub map-tabulate {ℓ κ} :
    {A : Type ℓ} {B : Type κ} (g : A → B) (n : ℕ) (f : ℕ → A)
    → map g (tabulate n f) ≡ tabulate n (λ k. g (f k))
map-tabulate g zero f = refl
map-tabulate g (suc n) f = ap (λ l. g (f 0) ∷ l) (map-tabulate g n (λ k. f (suc k)))

pub All-tabulate {ℓ κ} :
    {A : Type ℓ} (P : A → Type κ) (n : ℕ) (f : ℕ → A) → ((k : ℕ) → P (f k)) → All P (tabulate n f)
All-tabulate P zero f h = tt
All-tabulate P (suc n) f h = (h 0, All-tabulate P n (λ k. f (suc k)) (λ k. h (suc k)))

pub shift_suc : (n k : ℕ) → n / 2 ^ suc k ≡ n / 2 / 2 ^ k
shift_suc n k = ap (λ p. n / p) (pow-suc 2 k ∙ omega arith) ∙ sym (div-div-eq-div-mul n 2 (2 ^ k))

-- The digits of a number below 2 ^ w, and their inverses.
pub unsigned-digits : (w n : ℕ) → n < 2 ^ w → unsigned (tabulate w (λ i. n / 2 ^ i % 2 == 1)) ≡ n
unsigned-digits zero n h = omega arith
unsigned-digits (suc w) n h =
    let rest = unsigned-digits w (n / 2) (omega (arith, pow-suc 2 w)) in
    let shifted = fun_ext (λ k. ap (λ (q : ℕ). q % 2 == 1) (shift_suc n k)) in
    rw shifted (ground (arith, rest))

unsigned-inverses :
    (w n : ℕ) → n < 2 ^ w → unsigned (tabulate w (λ i. n / 2 ^ i % 2 == 0)) + n + 1 ≡ 2 ^ w
unsigned-inverses zero n h = omega arith
unsigned-inverses (suc w) n h =
    let rest = unsigned-inverses w (n / 2) (omega (arith, pow-suc 2 w)) in
    let shifted = fun_ext (λ k. ap (λ (q : ℕ). q % 2 == 0) (shift_suc n k)) in
    rw shifted (ground (arith, rest, pow-suc 2 w))

tabulate_agree {ℓ} :
    {A : Type ℓ} (n : ℕ) (f g : ℕ → A) → ((k : ℕ) → k < n → f k ≡ g k) → tabulate n f ≡ tabulate n g
tabulate_agree zero f g h = refl
tabulate_agree (suc n) f g h =
    ap₂ ◌∷◌ (h 0 (omega arith))
      (tabulate_agree n (λ k. f (suc k)) (λ k. g (suc k)) (λ k l. h (suc k) (omega arith)))

-- Up to 64 bits no shift count wraps.
unwrapped {ℓ} :
    {A : Type ℓ} (f : ℕ → A) (w : ℕ) → w ≤ 64 → tabulate w (λ i. f (i % 64)) ≡ tabulate w f
unwrapped f w h = tabulate_agree w (λ i. f (i % 64)) f (λ k l. ap f (omega arith))

abbrev pub constant_digits : ℤ → ℕ → List Bool
constant_digits v w = tabulate w (bit_of v)

pub constant_value :
    (ρ : Valuation) (v : ℤ) (w : ℕ) → map (bool_value ρ) (constant v w) ≡ constant_digits v w
unfolding constant
constant_value ρ v w = map-tabulate (bool_value ρ) w (λ i. const (bit_of v i))

pub constant-IsInt : (s : Circuit.Circuit) (v : ℤ) (w : ℕ) → IsInt s w (constant v w)
unfolding constant
constant-IsInt s v w = (
  length-tabulate w _,
  All-tabulate (IsMintedBool s.cnf.num_vars) w (λ i. const (bit_of v i)) (λ k. tt),
)

pub signed-constant_digits :
    (m : ℕ) (v : ℤ) → m < 64 → InRange m v → signed (constant_digits v (suc m)) ≡ v
unfolding bit_of
signed-constant_digits m (pos n) g r =
    let ds = constant_digits (pos n) (suc m) in
    let e : length ds ≡ suc m = length-tabulate (suc m) (bit_of (pos n)) in
    eq_of_parts (signed ds) (pos n) (
      ground (
        arith,
        signed_at m ds e,
        halves m ds e,
        ap unsigned (unwrapped (λ i. n / 2 ^ i % 2 == 1) (suc m) (omega arith)),
        unsigned-digits (suc m) n (omega (arith, pow-suc 2 m)),
        pow-suc 2 m,
      ))
signed-constant_digits m (negsuc n) g r =
    let ds = constant_digits (negsuc n) (suc m) in
    let e : length ds ≡ suc m = length-tabulate (suc m) (bit_of (negsuc n)) in
    eq_of_parts (signed ds) (negsuc n) (
      ground (
        arith,
        signed_at m ds e,
        halves m ds e,
        ap unsigned (unwrapped (λ i. n / 2 ^ i % 2 == 0) (suc m) (omega arith)),
        unsigned-inverses (suc m) n (omega (arith, pow-suc 2 m)),
        pow-suc 2 m,
      ))

-- Up to a width of 64 bits, in every valuation the bits of constant stand for its argument, when
-- that is in the range of the width.
pub int-constant :
    (ρ : Valuation) (m : ℕ) (v : ℤ) → m < 64 → InRange m v → int ρ (constant v (suc m)) ≡ v
int-constant ρ m v g r = ap signed (constant_value ρ v (suc m)) ∙ signed-constant_digits m v g r

pub invert-Denotes :
    {s : Circuit.Circuit} {w : ℕ} (a : IntVal)
    → IsInt s w a
    → Denotes (bits w) s (invert a) (λ ρ. map not (map (bool_value ρ) a))
unfolding invert
invert-Denotes a h = not_all_denote (self-Denotes h)

pub negate-Total :
    {s : Circuit.Circuit} (w : ℕ) (a : IntVal)
    → IsInt s w a
    → Total (both (bits w) bit) s (chain_cost w) (negate w a) (λ ρ.
      with_flag
        (add_digits w (map not (map (bool_value ρ) a)) (constant_digits (pos 1) w) false false))
unfolding negate
negate-Total {s} w a h =
    let d = invert-Denotes {s = s} a h in
    same-Total
      (λ ρ m.
        ap (λ xs. with_flag (add_digits w xs (map (bool_value ρ) (constant (pos 1) w)) false false))
          (d.value ρ m)
        ∙ ap (λ ys. with_flag (add_digits w (map not (map (bool_value ρ) a)) ys false false))
            (constant_value ρ (pos 1) w))
      (add_signed-Total w (invert a) (constant (pos 1) w) d.minted (constant-IsInt s (pos 1) w))

length-inverted :
    {w : ℕ} (ρ : Valuation) (a : IntVal)
    → length a ≡ w
    → length (map not (map (bool_value ρ) a)) ≡ w
length-inverted ρ a h = length-map (map (bool_value ρ) a) not ∙ (length-map a (bool_value ρ) ∙ h)

-- At a width of 2 to 64 bits, negate of a minted vector, in a well-formed state with room for the
-- adder's variables, returns bits and a flag; in every model the flag is set exactly when the
-- exact negation leaves the range, and the bits stand for it, off by 2^(m+1) when the flag is set.
pub negate-Wraps :
    (m : ℕ) (a : IntVal) {s : Circuit.Circuit}
    → 0 < m
    → m < 64
    → IsInt s (suc m) a
    → Ready (chain_cost (suc m)) s
    → Yields
        (both (bits (suc m)) bit)
        s
        (chain_cost (suc m))
        (negate (suc m) a)
        (λ ρ r. Wraps m (pos 0 -ℤ int ρ a) r.0 r.1)
negate-Wraps m a wide narrow ha =
    total-Yields (λ ρ r. Wraps m (pos 0 -ℤ int ρ a) r.0 r.1)
      (λ ρ _.
        let one = signed-constant_digits m (pos 1) narrow (one_lt m wide, omega arith) in
        let n : length (map (bool_value ρ) a) ≡ suc m = length-map a (bool_value ρ) ∙ ha.0 in
        add_digits-Wraps
          (pairs (suc m) (map not (map (bool_value ρ) a)) (constant_digits (pos 1) (suc m))
            (length-inverted ρ a ha.0) (length-tabulate (suc m) (bit_of (pos 1))))
          false false (pos 0 -ℤ int ρ a)
          (omega (
            arith,
            -ℤ_parts (pos 0) (int ρ a),
            signed-not m (map (bool_value ρ) a) n,
            ap pos_part one,
            ap neg_part one,
          )))
      (negate-Total (suc m) a ha)
  where
    one_lt : (k : ℕ) → 0 < k → 1 < 2 ^ k
    one_lt zero h = absurd (omega arith)
    one_lt (suc k) h = omega (arith, pow-suc 2 k, one-le-pow k 2)

-- At a width of one bit, for a minted vector in a well-formed state with room for the adder's
-- variables, negate returns a flag that is true, in every model, exactly when the negation is in
-- range.
pub negate_one_bit :
    (a : IntVal) {s : Circuit.Circuit}
    → IsInt s 1 a
    → Ready (chain_cost 1) s
    → Yields
        (both (bits 1) bit)
        s
        (chain_cost 1)
        (negate 1 a)
        (λ ρ r. (r.1 ≡ true) ↔ InRange 0 (pos 0 -ℤ int ρ a))
negate_one_bit a ha =
    total-Yields (λ ρ r. (r.1 ≡ true) ↔ InRange 0 (pos 0 -ℤ int ρ a))
      (λ ρ _. flag (map (bool_value ρ) a) (length-map a (bool_value ρ) ∙ ha.0))
      (negate-Total 1 a ha)
  where
    flag :
        (xs : List Bool)
        → length xs ≡ 1
        → ((with_flag (add_digits 1 (map not xs) (constant_digits (pos 1) 1) false false)).1 ≡ true)
          ↔ InRange 0 (pos 0 -ℤ signed xs)
    flag [] h = absurd (omega arith)
    flag (x ∷ y ∷ xs) h = absurd (omega arith)
    flag (true ∷ []) h = unfold bit_of signed ◌-ℤ◌ in ground arith
    flag (false ∷ []) h = unfold bit_of signed ◌-ℤ◌ in ground arith
