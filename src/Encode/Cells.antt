-- ===== src/Encode/Cells.antt =====
-- The cells of a matrix as the turns of a loop.
use mettle.Base.{
  ℕ, ◌+◌, ◌*◌, ◌≤◌, ◌≡◌, refl, arith, Bool, true, ◌&&◌, Bool-cases, List, [], ◌∷◌, ◌++◌, map,
  length, any, All, retain, inl, inr,
}
use mettle.Solve.Models.{Valuation}
use mettle.Circuit
use mettle.Circuit.{CircuitBool, M}
use mettle.Circuit.Model.{Extends, Total, bit, IsMintedBool, bind-Total, pure-Total, cost_le}
use mettle.Bounds.{Tuple, same, before}
use mettle.Matrix.{Matrix, find_cell, get_cell, or_false}
use mettle.Encode.{same_tuple}
use mettle.Encode.Matrices.{IsMatrix, Ascending}
use mettle.Encode.Loop.{Spec, Sets, total_cost}

-- A turn at the tuple of a cell.
pub same_tuple-Sets :
    (s : Circuit.Circuit) (f : Tuple × CircuitBool → M CircuitBool) (e : Tuple × CircuitBool)
    (c : ℕ) (g : Valuation → Bool)
    → ((j : ℕ) (t : Circuit.Circuit) → Extends j s t → Total bit t c (f e) g)
    → Sets s (same_tuple f e) (record { key = e.0; cost = c; value = g })
same_tuple-Sets s f e c g h j t x = cost_le (omega arith) (
    bind-Total (h j t x)
      (λ v u y d. pure-Total (record { minted = (refl, d.minted); value = d.value })))

-- A cell, stored or not, is minted.
pub get_cell-IsMinted :
    (r n : ℕ) (m : Matrix) (t : Tuple) → IsMatrix r n m → IsMintedBool n (get_cell m t)
unfolding get_cell find_cell
get_cell-IsMinted r n m t h = found m.cells h.2
  where
    found :
        (cells : List (Tuple × CircuitBool))
        → All (λ e. (length e.0 ≡ r) × IsMintedBool n e.1) cells
        → IsMintedBool n (or_false (find_cell t cells))
    found [] k = tt
    found ((u, v) ∷ cells) k = elim (Bool-cases (same t u)) [
      | inl q ↦ rw q k.0.1
      | inr q ↦ rw q (found cells k.1)
    ]

pub retain-All :
    {E : Type 0} (P : E → Type 0) (q : E → Bool) (es : List E) → All P es → All P (retain q es)
retain-All P q [] h = tt
retain-All P q (e ∷ es) h = elim (Bool-cases (q e)) [
  | inl k ↦ rw k (h.0, retain-All P q es h.1)
  | inr k ↦ rw k (retain-All P q es h.1)
]

-- What is kept passes the test.
pub retain-passes : {E : Type 0} (q : E → Bool) (es : List E) → All (λ e. q e ≡ true) (retain q es)
retain-passes q [] = tt
retain-passes q (e ∷ es) = elim (Bool-cases (q e)) [
  | inl k ↦ rw k (k, retain-passes q es)
  | inr k ↦ rw k (retain-passes q es)
]

pub retain-Ascending :
    {A : Type 0} (q : Tuple × A → Bool) (es : List (Tuple × A))
    → Ascending es
    → Ascending (retain q es)
retain-Ascending q [] h = tt
retain-Ascending q (e ∷ es) h = elim (Bool-cases (q e)) [
  | inl k ↦ rw k (retain-All (λ d. before e.0 d.0 ≡ true) q es h.0, retain-Ascending q es h.1)
  | inr k ↦ rw k (retain-Ascending q es h.1)
]

pub any_retained :
    {A : Type 0} (q : Tuple × A → Bool) (x : Tuple) (P : Tuple × A → Bool) (es : List (Tuple × A))
    → any (retain q es) (λ e. same x e.0 && P e) ≡ any es (λ e. same x e.0 && (P e && q e))
any_retained q x P [] = refl
any_retained q x P (e ∷ es) = elim (Bool-cases (q e)) [
  | inl k ↦ rw k (ground (arith, any_retained q x P es))
  | inr k ↦ rw k (ground (arith, any_retained q x P es))
]

-- The cost of a loop whose turns cost the same.
pub total_cost-map :
    {E : Type 0} (g : E → Spec) (c : ℕ) (es : List E)
    → ((e : E) → (g e).cost ≡ c)
    → total_cost (map g es) ≡ length es * c
total_cost-map g c [] h = omega arith
total_cost-map g c (e ∷ es) h = omega (arith, h e, total_cost-map g c es h)

pub total_cost-append : (xs ys : List Spec) → total_cost (xs ++ ys) ≡ total_cost xs + total_cost ys
total_cost-append [] ys = omega arith
total_cost-append (x ∷ xs) ys = omega (arith, total_cost-append xs ys)

pub retain-length : {E : Type 0} (q : E → Bool) (es : List E) → length (retain q es) ≤ length es
retain-length q [] = omega arith
retain-length q (e ∷ es) = elim (Bool-cases (q e)) [
  | inl k ↦ rw k (omega (arith, retain-length q es))
  | inr k ↦ rw k (omega (arith, retain-length q es))
]
