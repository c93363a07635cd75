-- ===== src/Encode/Compares.antt =====
-- The comparisons of matrices decide those of the sets that they hold.
use mettle.Base.{
  ℕ, ◌+◌, ◌*◌, ◌<◌, ◌≡◌, refl, sym, ap, ap₂, ◌∙◌, arith, Bool, true, false, not, beq, ◌&&◌, ◌||◌,
  ==_iff, List, [], ◌∷◌, map, Option, none, some, length, any, all, retain, Bool-cases, inl, inr,
}
use mettle.Solve.Models.{Valuation}
use mettle.Circuit
use mettle.Circuit.{CircuitBool}
use mettle.Circuit.Conjunction.{every}
use mettle.Circuit.Model.{Total, Ready, bit, bool_value, bind-Total, cost_le, same-Total}
use mettle.Circuit.Operations.{and_many-Total}
use mettle.Circuit.Yields.{Yields, total-Yields}
use mettle.Bounds.{Tuple, TupleSet, same, contains, is_subset_of}
use mettle.Matrix.{Matrix, get_cell, find_cell, is_stored, or_false}
use mettle.Encode.Decide.{RelCmpOp, subset, equal, insert_keys, rel_compare}
use mettle.Encode.Matrices.{IsMatrix}
use mettle.Encode.Building.{stored_any}
use mettle.Encode.Sets.{set_of, set_of-IsRelation, contains-set_of, sets_equal}
use mettle.Encode.Parts.{
  same_tuples, rel_atom, same_tuples→eq, same_tuples_refl, implies_each-Total, iff_each-Total,
  every-map, insert_keys-length, insert_keys-contains, all_at, all-true, by_truth,
}

module _ (r : ℕ) (s : Circuit.Circuit) (a b : Matrix) (p : 0 < r) (ha : IsMatrix r s.cnf.num_vars a)
    (hb : IsMatrix r s.cnf.num_vars b) where
  all_kept :
      (ρ : Valuation) (Q : Tuple → Bool) (es : List (Tuple × CircuitBool))
      → all es (λ e. not (bool_value ρ e.1) || Q e.0)
        ≡ all (map (λ e. e.0) (retain (λ e. bool_value ρ e.1) es)) Q
  all_kept ρ Q [] = refl
  all_kept ρ Q (e ∷ es) = elim (Bool-cases (bool_value ρ e.1)) [
    | inl k ↦ rw k (ap (λ c. Q e.0 && c) (all_kept ρ Q es))
    | inr k ↦ rw k (all_kept ρ Q es)
  ]

  subset_value :
      (ρ : Valuation)
      → every (map (λ e. not (bool_value ρ e.1) || bool_value ρ (get_cell b e.0)) a.cells)
        ≡ is_subset_of (set_of ρ a) (set_of ρ b)
  unfolding is_subset_of set_of
  subset_value ρ =
      every-map (λ e. not (bool_value ρ e.1) || bool_value ρ (get_cell b e.0)) a.cells
      ∙ (as_members a.cells ∙ all_kept ρ (contains (set_of ρ b)) a.cells)
    where
      as_members :
          (es : List (Tuple × CircuitBool))
          → all es (λ e. not (bool_value ρ e.1) || bool_value ρ (get_cell b e.0))
            ≡ all es (λ e. not (bool_value ρ e.1) || contains (set_of ρ b) e.0)
      as_members [] = refl
      as_members (e ∷ es) =
          ap₂ ◌&&◌
            (ap (λ c. not (bool_value ρ e.1) || c)
              (sym (contains-set_of r s.cnf.num_vars ρ b e.0 hb)))
            (as_members es)

  absent_cell :
      (ρ : Valuation) (m : Matrix) (x : Tuple)
      → any m.cells (λ d. same x d.0) ≡ false
      → bool_value ρ (get_cell m x) ≡ false
  unfolding get_cell
  absent_cell ρ m x h = by_case (find_cell x m.cells) (stored_any x m.cells ∙ h)
    where
      by_case : (o : Option CircuitBool) → is_stored o ≡ false → bool_value ρ (or_false o) ≡ false
      by_case none k = refl
      by_case (some v) k = absurd (cc k)

  abbrev keys : List Tuple
  keys = insert_keys (insert_keys [] a.cells) b.cells

  abbrev agree : Valuation → Tuple → Bool
  agree ρ t = beq (bool_value ρ (get_cell a t)) (bool_value ρ (get_cell b t))

  agree_everywhere : (ρ : Valuation) → all keys (agree ρ) ≡ true → (x : Tuple) → agree ρ x ≡ true
  agree_everywhere ρ h x = elim (Bool-cases (any keys (λ u. same x u))) [
    | inl k ↦ all_at x keys (agree ρ) h k
    | inr k ↦
        let none_here : (any a.cells (λ d. same x d.0) || any b.cells (λ d. same x d.0)) ≡ false =
          ground (
            arith,
            k,
            insert_keys-contains x (insert_keys [] a.cells) b.cells,
            insert_keys-contains x [] a.cells,
          ) in
        ap₂ beq (absent_cell ρ a x (ground (arith, none_here)))
          (absent_cell ρ b x (ground (arith, none_here)))
  ]

  equal_value :
      (ρ : Valuation) → every (map (agree ρ) keys) ≡ rel_atom equal (set_of ρ a) (set_of ρ b)
  unfolding rel_atom set_of
  equal_value ρ =
      let sa = set_of-IsRelation r s.cnf.num_vars ρ a p ha in
      let sb = set_of-IsRelation r s.cnf.num_vars ρ b p hb in
      every-map (agree ρ) keys
      ∙ by_truth (all keys (agree ρ)) (rel_atom equal (set_of ρ a) (set_of ρ b))
          (λ h.
            let e : set_of ρ a ≡ set_of ρ b =
              sets_equal (set_of ρ a) (set_of ρ b) same_arity sa.1.0 sb.1.0 (λ x.
                contains-set_of r s.cnf.num_vars ρ a x ha
                ∙ (beq_eq _ _ (agree_everywhere ρ h x)
                    ∙ sym (contains-set_of r s.cnf.num_vars ρ b x hb))) in
            both_parts _ _ ((==_iff (set_of ρ a).arity (set_of ρ b).arity).1 same_arity) (
              ap (λ (t : TupleSet). same_tuples (set_of ρ a).tuples t.tuples) (sym e)
              ∙ same_tuples_refl (set_of ρ a).tuples))
          (λ h.
            let e : (set_of ρ a).tuples ≡ (set_of ρ b).tuples =
              same_tuples→eq (set_of ρ a).tuples (set_of ρ b).tuples (second_part _ _ h) in
            all-true keys (agree ρ) (λ x. eq_beq _ _ (
              sym (contains-set_of r s.cnf.num_vars ρ a x ha)
              ∙ (ap (λ ts. any ts (λ u. same x u)) e ∙ contains-set_of r s.cnf.num_vars ρ b x hb))))
    where
      same_arity : (set_of ρ a).arity ≡ (set_of ρ b).arity
      same_arity = ha.0 ∙ sym hb.0

      beq_eq : (x y : Bool) → beq x y ≡ true → x ≡ y
      beq_eq x y h = ground arith

      eq_beq : (x y : Bool) → x ≡ y → beq x y ≡ true
      eq_beq x y h = ground arith

      both_parts : (x y : Bool) → x ≡ true → y ≡ true → (x && y) ≡ true
      both_parts x y h k = ground arith

      second_part : (x y : Bool) → (x && y) ≡ true → y ≡ true
      second_part x y h = ground arith

  compare-Total :
      (op : RelCmpOp)
      → Total bit s
          (3 * (length a.cells + length b.cells) + 1)
          (rel_compare op a b)
          (λ ρ. rel_atom op (set_of ρ a) (set_of ρ b))
  unfolding rel_compare rel_atom
  compare-Total subset = cost_le (omega arith) (
      bind-Total {j = length a.cells} {k = 1}
        (implies_each-Total r s.cnf.num_vars b a.cells {s = s} (omega arith) hb ha.2)
        (λ parts t x d. same-Total (λ ρ i. subset_value ρ) (and_many-Total d)))
  compare-Total equal =
      cost_le
        (omega (
          arith,
          insert_keys-length (insert_keys [] a.cells) b.cells,
          insert_keys-length [] a.cells,
        ))
        (bind-Total {j = 3 * length keys} {k = 1}
          (iff_each-Total r s.cnf.num_vars a b keys {s = s} (omega arith) ha hb)
          (λ parts t x d. same-Total (λ ρ i. equal_value ρ) (and_many-Total d)))

  -- Over two matrices of minted bits with tuples of one length, not 0, in a well-formed state with
  -- room for three gates a cell and one more, rel_compare returns, and in every model its result
  -- is the evaluator's comparison of the sets that the matrices hold, for in and for =.
  pub rel_compare_decides :
      (op : RelCmpOp)
      → Ready (3 * (length a.cells + length b.cells) + 1) s
      → Yields bit s
          (3 * (length a.cells + length b.cells) + 1)
          (rel_compare op a b)
          (λ ρ v. v ≡ rel_atom op (set_of ρ a) (set_of ρ b))
  rel_compare_decides op ready =
      total-Yields (λ ρ v. v ≡ rel_atom op (set_of ρ a) (set_of ρ b)) (λ ρ i. refl)
        (compare-Total op) ready
