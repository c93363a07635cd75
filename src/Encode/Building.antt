-- ===== src/Encode/Building.antt =====
-- The loops that build a matrix from the empty one.
use mettle.Base.{
  ℕ, ◌≤◌, ◌≡◌, refl, ap, fun_ext, arith, Bool, true, false, ◌&&◌, List, [], ◌∷◌, map, none, length,
  any, All, All-map, retain, Bool-cases, inl, inr,
}
use mettle.Solve.Models.{Valuation}
use mettle.Circuit
use mettle.Circuit.{CircuitBool, const, M, pure, bool_not, or, and, ite}
use mettle.Circuit.Model.{Total, cost_le, same-Total}
use mettle.Bounds.{Tuple, same}
use mettle.Matrix.{empty_matrix, find_cell, is_stored}
use mettle.Encode.{Item, set_each}
use mettle.Encode.Matrices.{matrix, empty-Denotes}
use mettle.Encode.Loop.{Spec, total_cost, IsLoop, Apart, set_each-Total, All-of_map}

-- The turn of a loop over cells.
abbrev pub at_tuple : ℕ → (Tuple × CircuitBool → Valuation → Bool) → Tuple × CircuitBool → Spec
at_tuple c g e = record { key = e.0; cost = c; value = g e }

absent_everywhere : (specs : List Spec) → All (λ (e : Spec). find_cell e.key [] ≡ none) specs
unfolding find_cell
absent_everywhere [] = tt
absent_everywhere (e ∷ specs) = (refl, absent_everywhere specs)

-- A loop that builds a matrix from the empty one.
pub from_empty-Total :
    (r k : ℕ) (items : List Item) (specs : List Spec) {s : Circuit.Circuit}
    (H : Valuation → Tuple → Bool)
    → IsLoop s items specs
    → All (λ (e : Spec). length e.key ≡ r) specs
    → Apart specs
    → total_cost specs ≤ k
    → ((ρ : Valuation) (u : Tuple) → any specs (λ e. same u e.key && e.value ρ) ≡ H ρ u)
    → Total (matrix r) s k (set_each items (empty_matrix r)) H
unfolding empty_matrix
from_empty-Total r k items specs H h l a c e = cost_le c (
    same-Total (λ ρ m. fun_ext (λ u. e ρ u))
      (set_each-Total r items specs (empty_matrix r) h l a (absent_everywhere specs)
        (empty-Denotes r)))

pub retain_all : {A : Type 0} (es : List A) → retain (λ e. true) es ≡ es
retain_all [] = refl
retain_all (e ∷ es) = ap (λ ds. e ∷ ds) (retain_all es)

pub stored_any :
    (x : Tuple) (cells : List (Tuple × CircuitBool))
    → is_stored (find_cell x cells) ≡ any cells (λ d. same x d.0)
unfolding find_cell
stored_any x [] = refl
stored_any x ((u, v) ∷ cells) = elim (Bool-cases (same x u)) [
  | inl q ↦ rw q refl
  | inr q ↦ rw q (stored_any x cells)
]

pub keys_apart :
    (c : ℕ) (g g' : Tuple × CircuitBool → Valuation → Bool) (xs ys : List (Tuple × CircuitBool))
    → All (λ e. any xs (λ d. same e.0 d.0) ≡ false) ys
    → All
        (λ (x : Spec). All (λ (y : Spec). same y.key x.key ≡ false) (map (at_tuple c g') ys))
        (map (at_tuple c g) xs)
keys_apart c g g' [] ys h = tt
keys_apart c g g' (x ∷ xs) ys h = (
  All-of_map (λ (y : Spec). same y.key x.0 ≡ false) (at_tuple c g') ys
      (All-map (λ e. any (x ∷ xs) (λ d. same e.0 d.0) ≡ false) (λ e. same e.0 x.0 ≡ false) ys
        (λ e p. ground arith) h),
  keys_apart c g g' xs ys (
      All-map (λ e. any (x ∷ xs) (λ d. same e.0 d.0) ≡ false)
        (λ e. any xs (λ d. same e.0 d.0) ≡ false) ys (λ e p. ground arith) h),
)
