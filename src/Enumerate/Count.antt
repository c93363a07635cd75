-- ===== src/Enumerate/Count.antt =====
-- The number of the instances that an enumeration shows.
use mettle.Base.{
  power_suc, ◌+◌, ◌^◌, ◌≤◌, ◌<◌, ◌≡◌, arith, Bool, true, false, beq, xor, ◌||◌, Bool-cases, List,
  [], ◌∷◌, length, any, All, retain, inl, inr,
}
use mettle.Solve.{Var, Assignment}
use mettle.Solve.Blocking.{bit_at, differs}
use mettle.Enumerate.{Solver, Enumerator}
use mettle.Enumerate.Distinct.{Lawful, Distinct, Shows, next-Shows-Distinct}

-- The assignments with a given value at a variable.
abbrev with_bit : Var → Bool → List Assignment → List Assignment
with_bit v b shown = retain (λ a. beq (bit_at a v) b) shown

parts_length :
    (v : Var) (shown : List Assignment)
    → length (with_bit v true shown) + length (with_bit v false shown) ≡ length shown
parts_length v [] = omega arith
parts_length v (a ∷ shown) = elim (Bool-cases (bit_at a v)) [
  | inl e ↦ rw e (omega (arith, parts_length v shown))
  | inr e ↦ rw e (omega (arith, parts_length v shown))
]

same_bit :
    (v : Var) (vs : List Var) (b : Bool) (a : Assignment) (shown : List Assignment)
    → beq (bit_at a v) b ≡ true
    → All (λ c. any (v ∷ vs) (differs (bit_at a) c) ≡ true) shown
    → All (λ c. any vs (differs (bit_at a) c) ≡ true) (with_bit v b shown)
same_bit v vs b a [] e h = tt
same_bit v vs b a (c ∷ shown) e h = elim (Bool-cases (beq (bit_at c v) b)) [
  | inl k ↦ rw k (
    elsewhere (bit_at a v) (bit_at c v) b (any vs (differs (bit_at a) c)) e k h.0,
    same_bit v vs b a shown e h.1,
  )
  | inr k ↦ rw k (same_bit v vs b a shown e h.1)
]
  where
    elsewhere :
        (x y z w : Bool) → beq x z ≡ true → beq y z ≡ true → (xor x y || w) ≡ true → w ≡ true
    elsewhere x y z w p q r = ground (arith, p, q, r)

with_bit-Distinct :
    (v : Var) (vs : List Var) (b : Bool) (shown : List Assignment)
    → Distinct (v ∷ vs) shown
    → Distinct vs (with_bit v b shown)
with_bit-Distinct v vs b [] h = tt
with_bit-Distinct v vs b (a ∷ shown) h = elim (Bool-cases (beq (bit_at a v) b)) [
  | inl k ↦ rw k (same_bit v vs b a shown k h.0, with_bit-Distinct v vs b shown h.1)
  | inr k ↦ rw k (with_bit-Distinct v vs b shown h.1)
]

Distinct-count :
    (vs : List Var) (shown : List Assignment) → Distinct vs shown → length shown ≤ 2 ^ length vs
Distinct-count [] [] h = omega arith
Distinct-count [] (a ∷ []) h = omega arith
Distinct-count [] (a ∷ b ∷ shown) h = absurd (cc h.0.0)
Distinct-count (v ∷ vs) shown h = omega (
  arith,
  parts_length v shown,
  Distinct-count vs (with_bit v true shown) (with_bit-Distinct v vs true shown h),
  Distinct-count vs (with_bit v false shown) (with_bit-Distinct v vs false shown h),
  power_suc (length vs),
)

-- Under the same conditions on the solver and the enumerator, the calls of next that show an
-- instance get at most 2 to the power of the number of primary variables assignments from the
-- solver.
pub next-Shows_at_most :
    {S : Type 0} (solver : Solver S) (laws : Lawful solver) (e f : Enumerator S)
    (shown : List Assignment)
    → All (λ v. v < laws.num_vars e.solver) e.primaries
    → Shows solver laws e shown f
    → length shown ≤ 2 ^ length e.primaries
next-Shows_at_most solver laws e f shown r k =
    Distinct-count e.primaries shown (next-Shows-Distinct solver laws e f shown r k).1
