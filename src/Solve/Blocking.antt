-- ===== src/Solve/Blocking.antt =====
-- Blocking clauses: what `block` rules out.
use mettle.Base.{
  zero, suc, ◌<◌, ◌≤◌, ◌≡◌, refl, ◌∙◌, arith, Bool, true, false, not, xor, List, [], ◌∷◌, some,
  length, any, All,
}
use mettle.Solve.{Var, Lit, Assignment, positive, negative, max_vars, block, block_lit, value}
use mettle.Solve.Models.{Valuation, lit_value, sat_clause, lit_value-positive, lit_value-negative}

-- Rust's `a[i]` of an index in range.
abbrev pub bit_at : Assignment → Var → Bool
bit_at [] v = false
bit_at (b ∷ a) zero = b
bit_at (b ∷ a) (suc v) = bit_at a v

pub value-bit_at : (a : Assignment) (v : Var) → v < length a → value a v ≡ some (bit_at a v)
unfolding value
value-bit_at [] v h = elim h [ ]
value-bit_at (b ∷ a) zero h = refl
value-bit_at (b ∷ a) (suc v) h = value-bit_at a v (omega arith)

xor-true : (b : Bool) → not b ≡ xor b true
xor-true true = refl
xor-true false = refl

xor-false : (b : Bool) → b ≡ xor b false
xor-false true = refl
xor-false false = refl

block_lit_lem :
    (a : Assignment) (v : Var)
    → v < length a
    → v ≤ max_vars
    → (l : Lit) × (block_lit a v ≡ some l)
      × ((ρ : Valuation) → lit_value ρ l ≡ xor (ρ v) (bit_at a v))
unfolding block_lit
block_lit_lem a v h m = go (bit_at a v) (value-bit_at a v h)
  where
    go :
        (b : Bool)
        → value a v ≡ some b
        → (l : Lit) × (block_lit a v ≡ some l) × ((ρ : Valuation) → lit_value ρ l ≡ xor (ρ v) b)
    go true e = (negative v, rw (e, block_lit), λ ρ. lit_value-negative ρ v m ∙ xor-true (ρ v))
    go false e = (positive v, rw (e, block_lit), λ ρ. lit_value-positive ρ v m ∙ xor-false (ρ v))

-- The value of a variable under a valuation differs from the one in the assignment.
abbrev pub differs : Valuation → Assignment → Var → Bool
differs ρ a v = xor (ρ v) (bit_at a v)

-- Over variables that the assignment covers, where it covers at most max_vars, block returns a
-- clause, and a valuation satisfies the clause exactly when it differs from the assignment at one
-- of the variables.
pub block_lem :
    (a : Assignment) (vs : List Var)
    → length a ≤ max_vars
    → All (λ v. v < length a) vs
    → (c : List Lit) × (block a vs ≡ some c)
      × ((ρ : Valuation) → sat_clause ρ c ≡ any vs (differs ρ a))
unfolding block
block_lem a [] m h = ([], refl, λ ρ. refl)
block_lem a (v ∷ vs) m h =
    let (l, el, sl) = block_lit_lem a v h.0 (omega arith) in
    let (c, ec, sc) = block_lem a vs m h.1 in (l ∷ c, rw (el, ec), λ ρ. rw (sl ρ, sc ρ))
