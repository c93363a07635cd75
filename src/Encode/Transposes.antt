-- ===== src/Encode/Transposes.antt =====
-- The transpose of a matrix.
use mettle.Base.{
  ℕ, ◌≡◌, refl, ap, ◌∙◌, arith, true, false, ◌&&◌, List, [], ◌∷◌, map, some, length, any, All,
  All-map,
}
use mettle.Circuit
use mettle.Circuit.{CircuitBool, M, pure, and}
use mettle.Circuit.Model.{
  Total, Ready, bit, bool_value, IsMintedBool, pure-Total, self-Denotes, later,
}
use mettle.Bounds.{Tuple, same, before}
use mettle.Bounds.Sets.{same_comm, before_apart}
use mettle.Matrix.{Matrix}
use mettle.Eval
use mettle.Eval.{reversed, swapped, appended}
use mettle.Eval.Loop.{inserts}
use mettle.Eval.Members.{any_same, returns_same}
use mettle.Eval.Joins.{transpose_lem}
use mettle.Encode
use mettle.Encode.{Item, lift, tuple_item, each_pair, set_each}
use mettle.Encode.Matrices.{IsMatrix, Ascending, matrix}
use mettle.Encode.Loop.{Spec, Sets, total_cost, IsLoop-map, Apart, any-map, All-of_map}
use mettle.Encode.Building.{from_empty-Total}
use mettle.Encode.Sets.{set_of, set_of-IsRelation, any-set_of, refines, Refines}
use mettle.Encode.Products.{tuple_item-Sets}

abbrev reverse_of : Tuple → Tuple
reverse_of [] = []
reverse_of (x ∷ []) = x ∷ []
reverse_of (x ∷ y ∷ t) = y ∷ x ∷ []

reversed-some : (t : Tuple) → length t ≡ 2 → reversed t ≡ some (reverse_of t)
reversed-some [] h = absurd (omega arith)
reversed-some (x ∷ []) h = absurd (omega arith)
reversed-some (x ∷ y ∷ t) h = refl

length-reverse_of : (t : Tuple) → length t ≡ 2 → length (reverse_of t) ≡ 2
length-reverse_of [] h = absurd (omega arith)
length-reverse_of (x ∷ []) h = absurd (omega arith)
length-reverse_of (x ∷ y ∷ t) h = refl

same-reverse_of :
    (t u : Tuple) → length t ≡ 2 → length u ≡ 2 → same (reverse_of t) (reverse_of u) ≡ same t u
unfolding same
same-reverse_of [] u h k = absurd (omega arith)
same-reverse_of (x ∷ []) u h k = absurd (omega arith)
same-reverse_of (x ∷ y ∷ t) [] h k = absurd (omega arith)
same-reverse_of (x ∷ y ∷ t) (v ∷ []) h k = absurd (omega arith)
same-reverse_of (x ∷ y ∷ []) (v ∷ w ∷ []) h k = ground arith
same-reverse_of (x ∷ y ∷ z ∷ t) (v ∷ w ∷ u) h k = absurd (omega arith)
same-reverse_of (x ∷ y ∷ t) (v ∷ w ∷ z ∷ u) h k = absurd (omega arith)

abbrev reversed_spec : Tuple × CircuitBool → Spec
reversed_spec e = record { key = reverse_of e.0; cost = 0; value = λ ρ. bool_value ρ e.1 }

reversed-Apart :
    (n : ℕ) (es : List (Tuple × CircuitBool))
    → All (λ e. (length e.0 ≡ 2) × IsMintedBool n e.1) es
    → Ascending es
    → Apart (map reversed_spec es)
reversed-Apart n [] h k = tt
reversed-Apart n (e ∷ es) h k = (later_apart es h.1 k.0, reversed-Apart n es h.1 k.1)
  where
    later_apart :
        (ds : List (Tuple × CircuitBool))
        → All (λ d. (length d.0 ≡ 2) × IsMintedBool n d.1) ds
        → All (λ d. before e.0 d.0 ≡ true) ds
        → All (λ (c : Spec). same c.key (reverse_of e.0) ≡ false) (map reversed_spec ds)
    later_apart [] l b = tt
    later_apart (d ∷ ds) l b = (
      same-reverse_of d.0 e.0 l.0.0 h.0.0 ∙ (same_comm d.0 e.0 ∙ before_apart e.0 d.0 b.0),
      later_apart ds l.1 b.1,
    )

zero_cost : (es : List (Tuple × CircuitBool)) → total_cost (map reversed_spec es) ≡ 0
zero_cost [] = refl
zero_cost (e ∷ es) = omega (arith, zero_cost es)

module _ (s : Circuit.Circuit) (a : Matrix) (ha : IsMatrix 2 s.cnf.num_vars a) where
  pub transpose-Total :
      Total
        (matrix 2)
        s
        0
        (Encode.transpose a)
        (λ ρ u. any a.cells (λ e. same u (reverse_of e.0) && bool_value ρ e.1))
  unfolding Encode.transpose
  transpose-Total =
      let item : Tuple × CircuitBool → Item = λ e. tuple_item (reversed e.0) (pure e.1) in
      from_empty-Total 2 0 (map item a.cells) (map reversed_spec a.cells)
        (λ ρ u. any a.cells (λ e. same u (reverse_of e.0) && bool_value ρ e.1))
        (IsLoop-map s item reversed_spec a.cells (
          All-map (λ e. (length e.0 ≡ 2) × IsMintedBool s.cnf.num_vars e.1)
            (λ e. Sets s (item e) (reversed_spec e)) a.cells
            (λ e k.
              tuple_item-Sets s (reversed e.0) (reverse_of e.0) (pure e.1) 0 (reversed_spec e).value
                (reversed-some e.0 k.0)
                (λ n u x. pure-Total (later x (self-Denotes {x = bit} {s = s} k.1))))
            ha.2))
        (All-of_map (λ (c : Spec). length c.key ≡ 2) reversed_spec a.cells
          (All-map (λ e. (length e.0 ≡ 2) × IsMintedBool s.cnf.num_vars e.1)
            (λ e. length (reverse_of e.0) ≡ 2) a.cells (λ e k. length-reverse_of e.0 k.0) ha.2))
        (reversed-Apart s.cnf.num_vars a.cells ha.2 ha.1) (omega (arith, zero_cost a.cells))
        (λ ρ u. any-map reversed_spec a.cells (λ c. same u c.key && c.value ρ))

  -- Over a matrix of minted bits with tuples of two atoms, in a well-formed state, the encoder's
  -- transpose returns without a new variable, and in every model the set that its result holds is
  -- the one that the evaluator's transpose computes from the set that the operand holds.
  pub transpose-Refines :
      Ready 0 s → Refines 2 s 0 (Encode.transpose a) (λ ρ. Eval.transpose (set_of ρ a))
  unfolding set_of swapped
  transpose-Refines ready =
      refines 2 (λ ρ u. any a.cells (λ e. same u (reverse_of e.0) && bool_value ρ e.1))
        (λ ρ. Eval.transpose (set_of ρ a)) (omega arith) transpose-Total ready
        (λ ρ m.
          returns_same (λ u. any a.cells (λ e. same u (reverse_of e.0) && bool_value ρ e.1))
            (λ u.
              any-set_of ρ a (λ t. inserts (swapped t) u)
              ∙ any_same a.cells (λ e. (length e.0 ≡ 2) × IsMintedBool s.cnf.num_vars e.1)
                  (λ e. inserts (swapped e.0) u && bool_value ρ e.1)
                  (λ e. same u (reverse_of e.0) && bool_value ρ e.1) ha.2
                  (λ e k.
                    ap (λ o. inserts (Eval.checked o) u && bool_value ρ e.1)
                      (reversed-some e.0 k.0)))
            (transpose_lem (set_of ρ a) (set_of-IsRelation 2 s.cnf.num_vars ρ a (omega arith) ha)
              ha.0))
