-- ===== src/Encode/Refinement.antt =====
-- The encoder's operators against those of the evaluator: in every model the matrix they return
-- holds the set that the evaluator computes from the sets that the operands hold.
use mettle.Base.{
  ℕ, ◌+◌, ◌*◌, ◌<◌, sym, ap₂, ◌∙◌, arith, Bool, true, false, not, ◌&&◌, ◌||◌, length, if◌then◌else◌,
  Option, some,
}
use mettle.Solve.Models.{Valuation}
use mettle.Circuit
use mettle.Circuit.{CircuitBool}
use mettle.Circuit.Model.{Ready, bool_value, IsMintedBool, cost_le}
use mettle.Bounds.{TupleSet, contains}
use mettle.Matrix.{Matrix, get_cell}
use mettle.Eval
use mettle.Eval.Members.{
  IsRelation, Returns, returns_same, at_arity, itself, union_lem, intersect_lem, diff_lem,
}
use mettle.Encode
use mettle.Encode.Matrices.{IsMatrix}
use mettle.Encode.Boolean.{union-Total, intersect-Total, diff-Total, rel_ite-Total}
use mettle.Encode.Sets.{set_of, set_of-IsRelation, contains-set_of, Refines, refines}

module _ (r : ℕ) (s : Circuit.Circuit) (a b : Matrix) (p : 0 < r) (ha : IsMatrix r s.cnf.num_vars a)
    (hb : IsMatrix r s.cnf.num_vars b) where
  -- From the members in terms of the sets to those in terms of the cells.
  in_cells :
      (f : Bool → Bool → Bool) (ρ : Valuation) {o : Option TupleSet}
      → Returns o a.arity (λ x. f (contains (set_of ρ a) x) (contains (set_of ρ b) x))
      → Returns o r (λ x. f (bool_value ρ (get_cell a x)) (bool_value ρ (get_cell b x)))
  in_cells f ρ c = at_arity ha.0 (
      returns_same (λ x. f (bool_value ρ (get_cell a x)) (bool_value ρ (get_cell b x)))
        (λ x.
          ap₂ f (contains-set_of r s.cnf.num_vars ρ a x ha)
            (contains-set_of r s.cnf.num_vars ρ b x hb))
        c)

  a_relation : (ρ : Valuation) → IsRelation (set_of ρ a)
  a_relation ρ = set_of-IsRelation r s.cnf.num_vars ρ a p ha

  b_relation : (ρ : Valuation) → IsRelation (set_of ρ b)
  b_relation ρ = set_of-IsRelation r s.cnf.num_vars ρ b p hb

  chosen :
      (c : Bool) (ρ : Valuation)
      → Returns
          (some (if c then set_of ρ a else set_of ρ b))
          r
          (λ x. if c then bool_value ρ (get_cell a x) else bool_value ρ (get_cell b x))
  unfolding set_of
  chosen true ρ = in_cells (λ u v. u) ρ (itself (set_of ρ a) (a_relation ρ))
  chosen false ρ =
      in_cells (λ u v. v) ρ (at_arity (hb.0 ∙ sym ha.0) (itself (set_of ρ b) (b_relation ρ)))

  -- Over two matrices of minted bits with tuples of one length, not 0, and a minted condition, in
  -- a well-formed state with room for three gates a cell, the encoder's union, intersection,
  -- difference and conditional return, in a well-formed state that extends the first one, and in
  -- every model the set that the result holds is the one that the evaluator computes from the sets
  -- that the operands hold (for the conditional, the set of the chosen branch).
  pub boolean-Refines :
      (c : CircuitBool)
      → IsMintedBool s.cnf.num_vars c
      → Ready (3 * (length a.cells + length b.cells)) s
      → Refines r s
          (3 * (length a.cells + length b.cells))
          (Encode.union a b)
          (λ ρ. Eval.union (set_of ρ a) (set_of ρ b))
        × Refines r s
            (3 * (length a.cells + length b.cells))
            (Encode.intersect a b)
            (λ ρ. Eval.intersect (set_of ρ a) (set_of ρ b))
        × Refines r s
            (3 * (length a.cells + length b.cells))
            (Encode.diff a b)
            (λ ρ. Eval.diff (set_of ρ a) (set_of ρ b))
        × Refines r s
            (3 * (length a.cells + length b.cells))
            (Encode.rel_ite c a b)
            (λ ρ. some (if bool_value ρ c then set_of ρ a else set_of ρ b))
  unfolding set_of
  boolean-Refines c hc ready = (
    refines r (λ ρ x. bool_value ρ (get_cell a x) || bool_value ρ (get_cell b x))
        (λ ρ. Eval.union (set_of ρ a) (set_of ρ b)) p (union-Total r s a b ha hb) ready
        (λ ρ m.
          in_cells ◌||◌ ρ
            (union_lem (set_of ρ a) (set_of ρ b) (a_relation ρ) (b_relation ρ) (hb.0 ∙ sym ha.0))),
    refines r (λ ρ x. bool_value ρ (get_cell a x) && bool_value ρ (get_cell b x))
        (λ ρ. Eval.intersect (set_of ρ a) (set_of ρ b)) p
        (cost_le (omega arith) (intersect-Total r s a b ha hb)) ready
        (λ ρ m. in_cells ◌&&◌ ρ (intersect_lem (set_of ρ a) (set_of ρ b) (a_relation ρ))),
    refines r (λ ρ x. bool_value ρ (get_cell a x) && not (bool_value ρ (get_cell b x)))
        (λ ρ. Eval.diff (set_of ρ a) (set_of ρ b)) p
        (cost_le (omega arith) (diff-Total r s a b ha hb)) ready
        (λ ρ m. in_cells (λ u v. u && not v) ρ (diff_lem (set_of ρ a) (set_of ρ b) (a_relation ρ))),
    refines r
        (λ ρ x. if bool_value ρ c then bool_value ρ (get_cell a x) else bool_value ρ (get_cell b x))
        (λ ρ. some (if bool_value ρ c then set_of ρ a else set_of ρ b)) p
        (rel_ite-Total r s a b ha hb c hc) ready (λ ρ m. chosen (bool_value ρ c) ρ),
  )
