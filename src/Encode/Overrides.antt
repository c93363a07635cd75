-- ===== src/Encode/Overrides.antt =====
-- The override of a matrix by another.
use mettle.Base.{
  ℕ, ◌+◌, ◌*◌, ◌≤◌, ◌<◌, ◌≡◌, refl, sym, ap, fun_ext, ◌∙◌, arith, Bool, not, ◌&&◌, ◌||◌, ◌==◌, List,
  [], ◌∷◌, map, Option, none, some, length, any, All, All-map, Bool-cases, inl, inr,
}
use mettle.Solve.Models.{Valuation}
use mettle.Circuit
use mettle.Circuit.{CircuitBool, const, M, pure, ◌>>=◌, bool_not, and, or, or_many}
use mettle.Circuit.Model.{
  Denotes, Total, Ready, bit, bool_value, IsMintedBool, IsMintedBool-mono, bind-Total, pure-Total,
  cost_le, self-Denotes, later, same-Total,
}
use mettle.Circuit.Operations.{and_Total, not-Denotes}
use mettle.Bounds.{AtomId, Tuple, same}
use mettle.Matrix.{Matrix, empty_matrix, get_cell, find_cell, or_false}
use mettle.Eval
use mettle.Eval.{first_atom}
use mettle.Eval.Members.{at_arity, returns_same}
use mettle.Eval.Override.{starts_with, same_start, override_lem}
use mettle.Encode.{lift, group_starts, or_each, in_dom, survivor, set_each, merge_each, override_}
use mettle.Encode.Matrices.{IsMatrix, matrix, any_at, at_cell}
use mettle.Encode.Loop.{Spec, Sets, IsLoop-map, Apart-map, any-map, All-of_map}
use mettle.Encode.Cells.{total_cost-map}
use mettle.Encode.Building.{from_empty-Total, at_tuple}
use mettle.Encode.Starts.{Starts, group_starts_lem}
use mettle.Encode.Sets.{set_of, set_of-IsRelation, contains-set_of, any-set_of, refines, Refines}
use mettle.Encode.Merges.{atoms, or_each-Total, merge_each-Total}

module _ (r : ℕ) (s : Circuit.Circuit) (a b : Matrix) (p : 0 < r) (ha : IsMatrix r s.cnf.num_vars a)
    (hb : IsMatrix r s.cnf.num_vars b) where
  -- Whether a cell of `b` with the first atom of a tuple is true.
  abbrev overridden : Valuation → Tuple → Bool
  overridden ρ t = any b.cells (λ d. same_start t d.0 && bool_value ρ d.1)

  -- The turn that keeps a tuple of `a`.
  survivor-Sets :
      (t : Circuit.Circuit) (dom : List (AtomId × CircuitBool)) (e : Tuple × CircuitBool)
      → Denotes atoms t dom (λ ρ x. any b.cells (λ d. starts_with x d.0 && bool_value ρ d.1))
      → 0 < length e.0
      → IsMintedBool t.cnf.num_vars e.1
      → Sets t (survivor dom e) (at_tuple 1 (λ c ρ. bool_value ρ c.1 && not (overridden ρ c.0)) e)
  unfolding in_dom
  survivor-Sets t dom ([], v) d l m j u f = absurd (omega arith)
  survivor-Sets t dom (x ∷ rest, v) d l m j u f =
      bind-Total {j = 1} {k = 0}
        (and_Total (later f (self-Denotes {x = bit} {s = t} m)) (
          not-Denotes (
            later f (record {
              minted = in_dom-IsMinted dom d.minted;
              value = λ ρ i. ap (λ g. g x) (d.value ρ i);
            }))))
        (λ w k y dw. pure-Total (record { minted = (refl, dw.minted); value = dw.value }))
    where
      in_dom-IsMinted :
          (gs : List (AtomId × CircuitBool))
          → All (λ (g : AtomId × CircuitBool). IsMintedBool t.cnf.num_vars g.1) gs
          → IsMintedBool t.cnf.num_vars (in_dom x gs)
      in_dom-IsMinted [] h = tt
      in_dom-IsMinted (g ∷ gs) h = elim (Bool-cases (x == g.0)) [
        | inl e ↦ rw e h.0
        | inr e ↦ rw e (in_dom-IsMinted gs h.1)
      ]

  starts : Starts s.cnf.num_vars [] (group_starts b.cells []) b.cells
  starts =
      group_starts_lem s.cnf.num_vars b.cells []
        (All-map (λ e. (length e.0 ≡ r) × IsMintedBool s.cnf.num_vars e.1)
          (λ e. (0 < length e.0) × IsMintedBool s.cnf.num_vars e.1) b.cells
          (λ e k. (omega (arith, k.0), k.1)) hb.2)
        tt tt

  abbrev pub overrides : Valuation → Tuple → Bool
  overrides ρ u =
      (bool_value ρ (get_cell a u) && not (overridden ρ u))
      || any b.cells (λ d. same u d.0 && bool_value ρ d.1)

  survivors-Total :
      (t : Circuit.Circuit) (dom : List (AtomId × CircuitBool))
      → s.cnf.num_vars ≤ t.cnf.num_vars
      → Denotes atoms t dom (λ ρ x. any b.cells (λ d. starts_with x d.0 && bool_value ρ d.1))
      → Total
          (matrix r)
          t
          (length a.cells)
          (set_each (map (survivor dom) a.cells) (empty_matrix r))
          (λ ρ u. bool_value ρ (get_cell a u) && not (overridden ρ u))
  unfolding get_cell
  survivors-Total t dom g d =
      let spec = at_tuple 1 (λ c ρ. bool_value ρ c.1 && not (overridden ρ c.0)) in
      from_empty-Total r (length a.cells) (map (survivor dom) a.cells) (map spec a.cells)
        (λ ρ u. bool_value ρ (get_cell a u) && not (overridden ρ u))
        (IsLoop-map t (survivor dom) spec a.cells (
          All-map (λ e. (length e.0 ≡ r) × IsMintedBool s.cnf.num_vars e.1)
            (λ e. Sets t (survivor dom e) (spec e)) a.cells
            (λ e k.
              survivor-Sets t dom e d (omega (arith, k.0))
                (IsMintedBool-mono s.cnf.num_vars t.cnf.num_vars e.1 g k.1))
            ha.2))
        (All-of_map (λ (c : Spec). length c.key ≡ r) spec a.cells
          (All-map (λ e. (length e.0 ≡ r) × IsMintedBool s.cnf.num_vars e.1) (λ e. length e.0 ≡ r)
            a.cells (λ e k. k.0) ha.2))
        (Apart-map CircuitBool spec a.cells (λ e. refl) ha.1)
        (omega (arith, total_cost-map spec 1 a.cells (λ e. refl)))
        (λ ρ u.
          any-map spec a.cells (λ c. same u c.key && c.value ρ)
          ∙ (any_at u a.cells (λ d. bool_value ρ d.1 && not (overridden ρ d.0)) ha.1
              ∙ by_cell ρ u (find_cell u a.cells)))
    where
      by_cell :
          (ρ : Valuation) (u : Tuple) (o : Option CircuitBool)
          → at_cell (λ v. bool_value ρ v && not (overridden ρ u)) o
            ≡ (bool_value ρ (or_false o) && not (overridden ρ u))
      by_cell ρ u none = refl
      by_cell ρ u (some v) = refl

  -- What follows the groups.
  after_groups :
      Total
        (matrix r)
        s
        (length a.cells + 2 * length b.cells)
        (lift (group_starts b.cells []) >>= (λ groups. or_each groups >>= (λ dom.
          set_each (map (survivor dom) a.cells) (empty_matrix a.arity)
          >>= (λ out. merge_each b.cells out))))
        overrides
  unfolding get_cell
  after_groups =
      rw (starts.returns, ha.0)
        (cost_le (omega (arith, starts.cost)) (
          bind-Total {j = length starts.groups} {k = length a.cells + length b.cells}
            (same-Total (λ ρ m. fun_ext (λ x. starts.members (bool_value ρ) x))
              (or_each-Total starts.groups {s = s} starts.minted))
            (λ dom t x d.
              bind-Total {j = length a.cells} {k = length b.cells} (survivors-Total t dom x.grows d)
                (λ out u y e.
                  merge_each-Total r s.cnf.num_vars b.cells out (omega (arith, x.grows, y.grows))
                    hb.2 e))))

  pub override_Total :
      Total (matrix r) s (length a.cells + 2 * length b.cells) (override_ a b) overrides
  unfolding override_
  override_Total = after_groups

  -- Over two matrices of minted bits with tuples of one length, not 0, in a well-formed state with
  -- room for a gate for each cell of the first and two for each cell of the second, the encoder's
  -- override returns, and in every model the set that its result holds is the one that the
  -- evaluator's override computes from the sets that the operands hold.
  pub override-Refines :
      Ready (length a.cells + 2 * length b.cells) s
      → Refines r s
          (length a.cells + 2 * length b.cells)
          (override_ a b)
          (λ ρ. Eval.override (set_of ρ a) (set_of ρ b))
  unfolding set_of get_cell
  override-Refines ready =
      refines r overrides (λ ρ. Eval.override (set_of ρ a) (set_of ρ b)) p override_Total ready
        (λ ρ m. at_arity ha.0 (
          returns_same (overrides ρ)
            (λ u.
              by_parts
                (contains-set_of r s.cnf.num_vars ρ b u hb
                  ∙ sym (
                      any_at u b.cells (λ d. bool_value ρ d.1) hb.1
                      ∙ stored ρ (find_cell u b.cells)))
                (contains-set_of r s.cnf.num_vars ρ a u ha) (any-set_of ρ b (λ w. same_start u w)))
            (override_lem (set_of ρ a) (set_of ρ b) (set_of-IsRelation r s.cnf.num_vars ρ a p ha)
              (set_of-IsRelation r s.cnf.num_vars ρ b p hb) (hb.0 ∙ sym ha.0))))
    where
      stored :
          (ρ : Valuation) (o : Option CircuitBool)
          → at_cell (λ v. bool_value ρ v) o ≡ bool_value ρ (or_false o)
      stored ρ none = refl
      stored ρ (some v) = refl

      by_parts :
          {x x' y y' z z' : Bool}
          → x ≡ x'
          → y ≡ y'
          → z ≡ z'
          → (x || (y && not z)) ≡ ((y' && not z') || x')
      by_parts e f g = ground (arith, e, f, g)
