-- ===== src/Solve/Lits.antt =====
-- The encoding of literals: a variable and its sign, packed into one number.
use Prim.Native.Nat.{
  bit_or, bit_and, bit_xor, digits, min, max, differ, bit_or-bitwise, bit_and-bitwise,
  bit_xor-bitwise,
}
use mettle.Base.{
  ap, sym, ◌∙◌, ℕ, zero, suc, ◌+◌, ◌*◌, ◌/◌, ◌%◌, ◌^◌, ◌-◌, ◌<◌, ◌≤◌, ◌≡◌, refl, arith, true, false,
  not,
}
use mettle.Solve.{Var, Lit, positive, negative, var, is_positive, lit_not, max_vars}

-- With an empty second operand, the digits of the first come back.
digits-zero :
    (z : ℕ → ℕ) (f : ℕ → ℕ → ℕ) (n a : ℕ)
    → z 0 ≡ 0
    → ((d : ℕ) → d < 2 → f d 0 ≡ d)
    → a ≤ n
    → digits z f n a 0 ≡ a
digits-zero z f zero zero hz hf h = hz
digits-zero z f zero (suc a) hz hf h = absurd (omega arith)
digits-zero z f (suc n) zero hz hf h = hz
digits-zero z f (suc n) (suc a) hz hf h =
    omega (arith, digits-zero z f n (suc a / 2) hz hf (omega arith), hf (suc a % 2) (omega arith))

-- Masking out every digit leaves nothing.
digits-zero_and : (n a : ℕ) → digits (λ b. zero) min n a 0 ≡ 0
digits-zero_and zero a = refl
digits-zero_and (suc n) zero = refl
digits-zero_and (suc n) (suc a) = omega (arith, digits-zero_and n (suc a / 2))

differ-zero : (d : ℕ) → d < 2 → differ d 0 ≡ d
differ-zero zero h = refl
differ-zero (suc d) h = refl

differ-one : (d : ℕ) → d < 2 → differ d 1 ≡ 1 - d
differ-one zero h = refl
differ-one (suc zero) h = refl
differ-one (suc (suc d)) h = absurd (omega arith)

pub bit_xor-one : (l : ℕ) → bit_xor l 1 ≡ l / 2 * 2 + (1 - l % 2)
bit_xor-one zero = refl
bit_xor-one (suc l) = omega (
  arith,
  bit_xor-bitwise (suc l) 1,
  digits-zero (λ b. b) differ l (suc l / 2) refl differ-zero (omega arith),
  differ-one (suc l % 2) (omega arith),
)

pub bit_or-one : (l : ℕ) → bit_or l 1 ≡ l / 2 * 2 + 1
bit_or-one zero = refl
bit_or-one (suc l) = omega (
  arith,
  bit_or-bitwise (suc l) 1,
  digits-zero (λ b. b) max l (suc l / 2) refl (λ d h. omega arith) (omega arith),
)

pub bit_and-one : (l : ℕ) → bit_and l 1 ≡ l % 2
bit_and-one zero = refl
bit_and-one (suc l) = omega (arith, bit_and-bitwise (suc l) 1, digits-zero_and l (suc l / 2))

pub var-positive : (v : Var) → v ≤ max_vars → var (positive v) ≡ v
unfolding var positive
var-positive v h = omega arith

pub is_positive-positive : (v : Var) → v ≤ max_vars → is_positive (positive v) ≡ true
unfolding is_positive positive
is_positive-positive v h = ground (arith, bit_and-one (v * 2 ^ 1 % 2 ^ 32))

pub negative-eq-not : (v : Var) → lit_not (positive v) ≡ negative v
unfolding lit_not positive negative
negative-eq-not v = omega (arith, bit_xor-one (v * 2 ^ 1 % 2 ^ 32), bit_or-one (v * 2 ^ 1 % 2 ^ 32))

pub var-not : (l : Lit) → var (lit_not l) ≡ var l
unfolding var lit_not
var-not l = omega (arith, bit_xor-one l)

pub is_positive-not : (l : Lit) → is_positive (lit_not l) ≡ not (is_positive l)
unfolding is_positive lit_not
is_positive-not l =
    ground (arith, bit_xor-one l, bit_and-one l, bit_and-one (l / 2 * 2 + (1 - l % 2)))

pub not-not_lit : (l : Lit) → lit_not (lit_not l) ≡ l
unfolding lit_not
not-not_lit l = omega (arith, bit_xor-one l, bit_xor-one (bit_xor l 1))

-- For a variable up to max_vars, the positive and the negative literal have that variable,
-- is_positive tells them apart, and each is the other's negation.
pub literals_lem :
    (v : Var)
    → v ≤ max_vars
    → (var (positive v) ≡ v)
      × (var (negative v) ≡ v)
      × (is_positive (positive v) ≡ true)
      × (is_positive (negative v) ≡ false)
      × (lit_not (positive v) ≡ negative v)
      × (lit_not (negative v) ≡ positive v)
literals_lem v h =
    let neg = negative-eq-not v in
    let pos = var-positive v h in
    let sign = is_positive-positive v h in
    (
      pos,
      ap var (sym neg) ∙ (var-not (positive v) ∙ pos),
      sign,
      ap is_positive (sym neg) ∙ (is_positive-not (positive v) ∙ ap not sign),
      neg,
      ap lit_not (sym neg) ∙ not-not_lit (positive v),
    )
