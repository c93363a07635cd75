-- ===== src/Encode/Boolean.antt =====
-- The union, the intersection, the difference and the conditional of matrices.
use mettle.Base.{
  ℕ, ◌+◌, ◌*◌, ◌≡◌, refl, ap₂, subst, ◌∙◌, arith, Bool, true, false, not, ◌&&◌, ◌||◌, if◌then◌else◌,
  ◌++◌, map, Option, none, some, length, any, All-map, All-append, retain,
}
use mettle.Solve.Models.{Valuation}
use mettle.Circuit
use mettle.Circuit.{CircuitBool, const, M, pure, bool_not, or, and, ite}
use mettle.Circuit.Model.{
  Extends, Denotes, Total, bit, bool_value, IsMintedBool, pure-Total, cost_le, self-Denotes, later,
}
use mettle.Circuit.Operations.{and_Total, or_Total, ite-Total, not-Denotes, const-Denotes}
use mettle.Bounds.{Tuple, same}
use mettle.Matrix.{Matrix, empty_matrix, find_cell, get_cell, contains_key, is_stored, or_false}
use mettle.Encode.{same_tuple, set_each, union, intersect, diff, rel_ite}
use mettle.Encode.Matrices.{IsMatrix, matrix, any_at, at_cell}
use mettle.Encode.Loop.{
  Spec, Sets, IsLoop-map, IsLoop-append, Apart-map, Apart-append, any-map, All-of_map,
}
use mettle.Encode.Cells.{
  same_tuple-Sets, get_cell-IsMinted, retain-All, retain-passes, retain-Ascending, any_retained,
  total_cost-map, total_cost-append, retain-length,
}
use mettle.Eval.Members.{any-append}
use mettle.Encode.Building.{at_tuple, from_empty-Total, retain_all, stored_any, keys_apart}

module _ (r : ℕ) (s : Circuit.Circuit) where
  -- A loop over the cells of one matrix that a test keeps.
  pub kept-Total :
      (a : Matrix) (q : Tuple × CircuitBool → Bool) (f : Tuple × CircuitBool → M CircuitBool)
      (g : Tuple × CircuitBool → Valuation → Bool) (H : Valuation → Tuple → Bool)
      → IsMatrix r s.cnf.num_vars a
      → ((e : Tuple × CircuitBool) (j : ℕ) (t : Circuit.Circuit)
          → IsMintedBool s.cnf.num_vars e.1
          → Extends j s t
          → Total bit t 1 (f e) (g e))
      → ((ρ : Valuation) (u : Tuple)
          → at_cell (λ v. g (u, v) ρ && q (u, v)) (find_cell u a.cells) ≡ H ρ u)
      → Total
          (matrix r)
          s
          (length a.cells)
          (set_each (map (same_tuple f) (retain q a.cells)) (empty_matrix r))
          H
  kept-Total a q f g H h k e =
      from_empty-Total r (length a.cells) (map (same_tuple f) (retain q a.cells))
        (map (at_tuple 1 g) (retain q a.cells)) H
        (IsLoop-map s (same_tuple f) (at_tuple 1 g) (retain q a.cells) (
          retain-All (λ e. Sets s (same_tuple f e) (at_tuple 1 g e)) q a.cells
            (All-map (λ e. (length e.0 ≡ r) × IsMintedBool s.cnf.num_vars e.1)
              (λ e. Sets s (same_tuple f e) (at_tuple 1 g e)) a.cells
              (λ e p. same_tuple-Sets s f e 1 (g e) (λ j t x. k e j t p.1 x)) h.2)))
        (All-of_map (λ (e : Spec). length e.key ≡ r) (at_tuple 1 g) (retain q a.cells)
          (retain-All (λ e. length e.0 ≡ r) q a.cells
            (All-map (λ e. (length e.0 ≡ r) × IsMintedBool s.cnf.num_vars e.1) (λ e. length e.0 ≡ r)
              a.cells (λ e p. p.0) h.2)))
        (Apart-map CircuitBool (at_tuple 1 g) (retain q a.cells) (λ e. refl)
          (retain-Ascending q a.cells h.1))
        (omega (
          arith,
          total_cost-map (at_tuple 1 g) 1 (retain q a.cells) (λ e. refl),
          retain-length q a.cells,
        ))
        (λ ρ u.
          any-map (at_tuple 1 g) (retain q a.cells) (λ c. same u c.key && c.value ρ)
          ∙ (any_retained q u (λ d. g d ρ) a.cells
              ∙ (any_at u a.cells (λ d. g d ρ && q d) h.1 ∙ e ρ u)))

  module _ (a b : Matrix) (ha : IsMatrix r s.cnf.num_vars a)
      (hb : IsMatrix r s.cnf.num_vars b) where
    cell-Denotes :
        {j : ℕ} {t : Circuit.Circuit} (m : Matrix) (u : Tuple)
        → IsMatrix r s.cnf.num_vars m
        → Extends j s t
        → Denotes bit t (get_cell m u) (λ ρ. bool_value ρ (get_cell m u))
    cell-Denotes m u h x =
        later x (self-Denotes {x = bit} {s = s} (get_cell-IsMinted r s.cnf.num_vars m u h))

    pub intersect-Total :
        Total
          (matrix r)
          s
          (length a.cells)
          (intersect a b)
          (λ ρ u. bool_value ρ (get_cell a u) && bool_value ρ (get_cell b u))
    unfolding intersect get_cell contains_key
    intersect-Total = rw ha.0 (
        kept-Total a (λ e. contains_key b e.0) (λ e. and e.1 (get_cell b e.0))
          (λ e ρ. bool_value ρ e.1 && bool_value ρ (get_cell b e.0))
          (λ ρ u. bool_value ρ (get_cell a u) && bool_value ρ (get_cell b u)) ha
          (λ e j t p x.
            and_Total (later x (self-Denotes {x = bit} {s = s} p)) (cell-Denotes b e.0 hb x))
          (λ ρ u. by_cells ρ (find_cell u a.cells) (find_cell u b.cells)))
      where
        by_cells :
            (ρ : Valuation) (o p : Option CircuitBool)
            → at_cell (λ v. (bool_value ρ v && bool_value ρ (or_false p)) && is_stored p) o
              ≡ (bool_value ρ (or_false o) && bool_value ρ (or_false p))
        by_cells ρ none p = refl
        by_cells ρ (some v) none = ground arith
        by_cells ρ (some v) (some w) = ground arith

    pub diff-Total :
        Total
          (matrix r)
          s
          (length a.cells)
          (diff a b)
          (λ ρ u. bool_value ρ (get_cell a u) && not (bool_value ρ (get_cell b u)))
    unfolding diff get_cell empty_matrix
    diff-Total = rw ha.0 (
        subst
          (λ es.
            Total (matrix r) s (length a.cells)
              (set_each (map (same_tuple (λ e. and e.1 (bool_not (get_cell b e.0)))) es)
                (empty_matrix r))
              (λ ρ u. bool_value ρ (get_cell a u) && not (bool_value ρ (get_cell b u))))
          (retain_all a.cells)
          (kept-Total a (λ e. true) (λ e. and e.1 (bool_not (get_cell b e.0)))
            (λ e ρ. bool_value ρ e.1 && not (bool_value ρ (get_cell b e.0)))
            (λ ρ u. bool_value ρ (get_cell a u) && not (bool_value ρ (get_cell b u))) ha
            (λ e j t p x.
              and_Total (later x (self-Denotes {x = bit} {s = s} p))
                (not-Denotes (cell-Denotes b e.0 hb x)))
            (λ ρ u. by_cells ρ (find_cell u a.cells) (find_cell u b.cells))))
      where
        by_cells :
            (ρ : Valuation) (o p : Option CircuitBool)
            → at_cell (λ v. (bool_value ρ v && not (bool_value ρ (or_false p))) && true) o
              ≡ (bool_value ρ (or_false o) && not (bool_value ρ (or_false p)))
        by_cells ρ none p = refl
        by_cells ρ (some v) p = ground arith

    -- A loop over the cells of the first matrix, then over those of the second that the first has
    -- not.
    two_loops-Total :
        (f f' : Tuple × CircuitBool → M CircuitBool) (g g' : Tuple × CircuitBool → Valuation → Bool)
        (H : Valuation → Tuple → Bool)
        → ((e : Tuple × CircuitBool) (j : ℕ) (t : Circuit.Circuit)
            → IsMintedBool s.cnf.num_vars e.1
            → Extends j s t
            → Total bit t 3 (f e) (g e))
        → ((e : Tuple × CircuitBool) (j : ℕ) (t : Circuit.Circuit)
            → IsMintedBool s.cnf.num_vars e.1
            → Extends j s t
            → Total bit t 3 (f' e) (g' e))
        → ((ρ : Valuation) (u : Tuple)
            → (at_cell (λ v. g (u, v) ρ) (find_cell u a.cells)
                || at_cell (λ v. g' (u, v) ρ && not (contains_key a u)) (find_cell u b.cells))
              ≡ H ρ u)
        → Total
            (matrix r)
            s
            (3 * (length a.cells + length b.cells))
            (set_each
              (map (same_tuple f) a.cells
                ++ map (same_tuple f') (retain (λ e. not (contains_key a e.0)) b.cells))
              (empty_matrix r))
            H
    unfolding contains_key
    two_loops-Total f f' g g' H k k' e =
        let others = retain (λ e. not (contains_key a e.0)) b.cells in
        from_empty-Total r (3 * (length a.cells + length b.cells))
          (map (same_tuple f) a.cells ++ map (same_tuple f') others)
          (map (at_tuple 3 g) a.cells ++ map (at_tuple 3 g') others) H
          (IsLoop-append s (map (same_tuple f) a.cells) (map (at_tuple 3 g) a.cells)
            (map (same_tuple f') others) (map (at_tuple 3 g') others)
            (IsLoop-map s (same_tuple f) (at_tuple 3 g) a.cells (
              All-map (λ e. (length e.0 ≡ r) × IsMintedBool s.cnf.num_vars e.1)
                (λ e. Sets s (same_tuple f e) (at_tuple 3 g e)) a.cells
                (λ e p. same_tuple-Sets s f e 3 (g e) (λ j t x. k e j t p.1 x)) ha.2))
            (IsLoop-map s (same_tuple f') (at_tuple 3 g') others (
              retain-All (λ e. Sets s (same_tuple f' e) (at_tuple 3 g' e))
                (λ e. not (contains_key a e.0)) b.cells
                (All-map (λ e. (length e.0 ≡ r) × IsMintedBool s.cnf.num_vars e.1)
                  (λ e. Sets s (same_tuple f' e) (at_tuple 3 g' e)) b.cells
                  (λ e p. same_tuple-Sets s f' e 3 (g' e) (λ j t x. k' e j t p.1 x)) hb.2))))
          (All-append (λ (e : Spec). length e.key ≡ r) (map (at_tuple 3 g) a.cells)
            (map (at_tuple 3 g') others)
            (All-of_map (λ (e : Spec). length e.key ≡ r) (at_tuple 3 g) a.cells
              (All-map (λ e. (length e.0 ≡ r) × IsMintedBool s.cnf.num_vars e.1)
                (λ e. length e.0 ≡ r) a.cells (λ e p. p.0) ha.2))
            (All-of_map (λ (e : Spec). length e.key ≡ r) (at_tuple 3 g') others
              (retain-All (λ e. length e.0 ≡ r) (λ e. not (contains_key a e.0)) b.cells
                (All-map (λ e. (length e.0 ≡ r) × IsMintedBool s.cnf.num_vars e.1)
                  (λ e. length e.0 ≡ r) b.cells (λ e p. p.0) hb.2))))
          (Apart-append (map (at_tuple 3 g) a.cells) (map (at_tuple 3 g') others)
            (Apart-map CircuitBool (at_tuple 3 g) a.cells (λ e. refl) ha.1)
            (Apart-map CircuitBool (at_tuple 3 g') others (λ e. refl)
              (retain-Ascending (λ e. not (contains_key a e.0)) b.cells hb.1))
            (keys_apart 3 g g' a.cells others (
              All-map (λ e. not (contains_key a e.0) ≡ true)
                (λ e. any a.cells (λ d. same e.0 d.0) ≡ false) others
                (λ e p. ground (arith, p, stored_any e.0 a.cells))
                (retain-passes (λ e. not (contains_key a e.0)) b.cells))))
          (omega (
            arith,
            total_cost-append (map (at_tuple 3 g) a.cells) (map (at_tuple 3 g') others),
            total_cost-map (at_tuple 3 g) 3 a.cells (λ e. refl),
            total_cost-map (at_tuple 3 g') 3 others (λ e. refl),
            retain-length (λ e. not (contains_key a e.0)) b.cells,
          ))
          (λ ρ u.
            any-append (map (at_tuple 3 g) a.cells) (map (at_tuple 3 g') others)
              (λ c. same u c.key && c.value ρ)
            ∙ (ap₂ ◌||◌
                  (any-map (at_tuple 3 g) a.cells (λ c. same u c.key && c.value ρ)
                    ∙ any_at u a.cells (λ d. g d ρ) ha.1)
                  (any-map (at_tuple 3 g') others (λ c. same u c.key && c.value ρ)
                    ∙ (any_retained (λ e. not (contains_key a e.0)) u (λ d. g' d ρ) b.cells
                        ∙ any_at u b.cells (λ d. g' d ρ && not (contains_key a d.0)) hb.1))
                ∙ e ρ u))

    pub union-Total :
        Total
          (matrix r)
          s
          (3 * (length a.cells + length b.cells))
          (union a b)
          (λ ρ u. bool_value ρ (get_cell a u) || bool_value ρ (get_cell b u))
    unfolding union get_cell contains_key
    union-Total = rw ha.0 (
        two_loops-Total (λ e. or e.1 (get_cell b e.0)) (λ e. pure e.1)
          (λ e ρ. bool_value ρ e.1 || bool_value ρ (get_cell b e.0)) (λ e ρ. bool_value ρ e.1)
          (λ ρ u. bool_value ρ (get_cell a u) || bool_value ρ (get_cell b u))
          (λ e j t p x.
            cost_le (omega arith)
              (or_Total (later x (self-Denotes {x = bit} {s = s} p)) (cell-Denotes b e.0 hb x)))
          (λ e j t p x.
            cost_le (omega arith) (pure-Total (later x (self-Denotes {x = bit} {s = s} p))))
          (λ ρ u. by_cells ρ (find_cell u a.cells) (find_cell u b.cells)))
      where
        by_cells :
            (ρ : Valuation) (o p : Option CircuitBool)
            → (at_cell (λ v. bool_value ρ v || bool_value ρ (or_false p)) o
                || at_cell (λ v. bool_value ρ v && not (is_stored o)) p)
              ≡ (bool_value ρ (or_false o) || bool_value ρ (or_false p))
        by_cells ρ none none = refl
        by_cells ρ (some v) none = ground arith
        by_cells ρ none (some w) = ground arith
        by_cells ρ (some v) (some w) = ground arith

    pub rel_ite-Total :
        (c : CircuitBool)
        → IsMintedBool s.cnf.num_vars c
        → Total (matrix r) s (3 * (length a.cells + length b.cells)) (rel_ite c a b) (λ ρ u.
          if bool_value ρ c then bool_value ρ (get_cell a u) else bool_value ρ (get_cell b u))
    unfolding rel_ite get_cell contains_key
    rel_ite-Total c hc = rw ha.0 (
        two_loops-Total (λ e. ite c e.1 (get_cell b e.0)) (λ e. ite c (const false) e.1)
          (λ e ρ. if bool_value ρ c then bool_value ρ e.1 else bool_value ρ (get_cell b e.0))
          (λ e ρ. if bool_value ρ c then false else bool_value ρ e.1)
          (λ ρ u.
            if bool_value ρ c then bool_value ρ (get_cell a u) else bool_value ρ (get_cell b u))
          (λ e j t p x.
            ite-Total c (later x (self-Denotes {x = bit} {s = s} hc))
              (later x (self-Denotes {x = bit} {s = s} p)) (cell-Denotes b e.0 hb x))
          (λ e j t p x.
            ite-Total c (later x (self-Denotes {x = bit} {s = s} hc)) (const-Denotes false)
              (later x (self-Denotes {x = bit} {s = s} p)))
          (λ ρ u. by_cells ρ (bool_value ρ c) (find_cell u a.cells) (find_cell u b.cells)))
      where
        by_cells :
            (ρ : Valuation) (i : Bool) (o p : Option CircuitBool)
            → (at_cell (λ v. if i then bool_value ρ v else bool_value ρ (or_false p)) o
                || at_cell (λ v. (if i then false else bool_value ρ v) && not (is_stored o)) p)
              ≡ (if i then bool_value ρ (or_false o) else bool_value ρ (or_false p))
        by_cells ρ i none none = ground arith
        by_cells ρ i (some v) none = ground arith
        by_cells ρ i none (some w) = ground arith
        by_cells ρ i (some v) (some w) = ground arith
