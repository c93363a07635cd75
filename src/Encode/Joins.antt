-- ===== src/Encode/Joins.antt =====
-- The join of matrices.
use mettle.Base.{
  ℕ, suc, ◌+◌, ◌-◌, ◌*◌, ◌%◌, ◌^◌, leb, if◌then◌else◌, ◌≤◌, ◌<◌, ◌≡◌, refl, ap₂, ◌∙◌, arith, Bool,
  ◌&&◌, List, [], ◌∷◌, map, length, any, All, All-map,
}
use mettle.Solve.Models.{Valuation}
use mettle.Circuit
use mettle.Circuit.{CircuitBool, M, pure, ◌>>=◌, and, or_many}
use mettle.Circuit.Model.{
  Shape, Extends, Extends-refl, Total, Ready, bit, bits, bool_value, IsMintedBool,
  IsMintedBool-mono, bind-Total, pure-Total, cost_le, self-Denotes, later,
}
use mettle.Circuit.Operations.{and_Total, or_many-Total, cons-Denotes, nil-Denotes}
use mettle.Bounds.{Tuple, same}
use mettle.Matrix.{Matrix, empty_matrix}
use mettle.Eval
use mettle.Eval.{joined}
use mettle.Eval.Loop.{inserts, IsTurn}
use mettle.Eval.Members.{at_arity, returns_same}
use mettle.Eval.Joins.{join_lem, joined-IsTurn}
use mettle.Encode
use mettle.Encode.{Item, Groups, lift, and_each, group_item, group_pairs, meter_scan, set_each}
use mettle.Encode.Matrices.{IsMatrix, matrix}
use mettle.Encode.Loop.{Spec, Sets, total_cost, IsLoop-map, Apart-map, any-map, All-of_map}
use mettle.Encode.Building.{from_empty-Total}
use mettle.Encode.Sets.{set_of, set_of-IsRelation, any-set_of_pairs, refines, Refines}
use mettle.Encode.Groups.{Contribution, groups_cost, IsGroup, Grouped, group_pairs_lem}

abbrev unit : Shape Unit Unit
unit = record { minted = λ n a. Unit; eval = λ ρ a. a; mono = λ n m a h k. k }

-- The meter changes neither the formula nor the gates.
meter_scan-Total : (n : ℕ) (s : Circuit.Circuit) → Total unit s 0 (meter_scan n) (λ ρ. tt)
unfolding meter_scan
meter_scan-Total n s ready =
    let v = ready.valid in
    let r = Extends-refl s in
    record {
      result = tt;
      state = record s { ops = (s.ops + (if leb n (2 ^ 64 - 1) then n else 2 ^ 64 - 1)) % 2 ^ 64 };
      runs = refl;
      valid = record {
        bounded = v.bounded;
        clauses_minted = v.clauses_minted;
        gates_minted = v.gates_minted;
        gates_sound = v.gates_sound;
      };
      extends = record {
        grows = r.grows;
        cost = r.cost;
        keeps = r.keeps;
        conservative = r.conservative;
      };
      denotes = record { minted = tt; value = λ ρ m. refl };
    }

abbrev pub both_true : Valuation → Contribution → Bool
both_true ρ p = bool_value ρ p.0 && bool_value ρ p.1

abbrev ArePairs : ℕ → List Contribution → Type 0
ArePairs n pairs = All (λ p. IsMintedBool n p.0 × IsMintedBool n p.1) pairs

pairs_mono : (n m : ℕ) (pairs : List Contribution) → n ≤ m → ArePairs n pairs → ArePairs m pairs
pairs_mono n m pairs h k =
    All-map (λ p. IsMintedBool n p.0 × IsMintedBool n p.1)
      (λ p. IsMintedBool m p.0 × IsMintedBool m p.1) pairs
      (λ p q. (IsMintedBool-mono n m p.0 h q.0, IsMintedBool-mono n m p.1 h q.1)) k

and_each-Total :
    (pairs : List Contribution) {s : Circuit.Circuit}
    → ArePairs s.cnf.num_vars pairs
    → Total (bits (length pairs)) s (length pairs) (and_each pairs) (λ ρ. map (both_true ρ) pairs)
unfolding and_each
and_each-Total [] h = pure-Total nil-Denotes
and_each-Total ((p, q) ∷ pairs) {s} h = cost_le (omega arith) (
    bind-Total {j = 1} {k = length pairs + 0}
      (and_Total (self-Denotes {x = bit} {s = s} h.0.0) (self-Denotes {x = bit} {s = s} h.0.1))
      (λ term t x d.
        bind-Total {j = length pairs} {k = 0}
          (and_each-Total pairs {s = t}
            (pairs_mono s.cnf.num_vars t.cnf.num_vars pairs x.grows h.1))
          (λ terms u y ds. pure-Total (cons-Denotes (later y d) ds))))

abbrev group_spec : Tuple × List Contribution → Spec
group_spec g = record { key = g.0; cost = suc (length g.1); value = λ ρ. any g.1 (both_true ρ) }

group_item-Sets :
    (r : ℕ) (s : Circuit.Circuit) (g : Tuple × List Contribution)
    → IsGroup r s.cnf.num_vars g
    → Sets s (group_item g) (group_spec g)
group_item-Sets r s g h j t x = cost_le (omega arith) (
    bind-Total {j = length g.1} {k = 1 + 0}
      (and_each-Total g.1 {s = t} (pairs_mono s.cnf.num_vars t.cnf.num_vars g.1 x.grows h.1))
      (λ terms u y ds. bind-Total {j = 1} {k = 0} (or_many-Total ds) (λ v w z d.
        pure-Total (record {
          minted = (refl, d.minted);
          value = λ ρ m. d.value ρ m ∙ any-map (both_true ρ) g.1 (λ b. b);
        }))))

groups_cost_lem : (groups : Groups) → total_cost (map group_spec groups) ≡ groups_cost groups
groups_cost_lem [] = refl
groups_cost_lem (g ∷ groups) = omega (arith, groups_cost_lem groups)

module _ (i j : ℕ) (s : Circuit.Circuit) (a b : Matrix) (p : 0 < i) (q : 0 < j) (k : 2 < i + j)
    (ha : IsMatrix i s.cnf.num_vars a) (hb : IsMatrix j s.cnf.num_vars b) where
  abbrev pub joins : Valuation → Tuple → Bool
  joins ρ u =
      any a.cells (λ e.
        any b.cells (λ d. inserts (joined e.0 d.0) u && (bool_value ρ e.1 && bool_value ρ d.1)))

  scanned :
      Grouped
        (i + j - 2)
        s.cnf.num_vars
        (length a.cells * length b.cells)
        []
        (group_pairs a.cells b.cells [])
        (λ V u. any a.cells (λ e. any b.cells (λ d. inserts (joined e.0 d.0) u && V (e.1, d.1))))
  scanned =
      group_pairs_lem (i + j - 2) s.cnf.num_vars a.cells b.cells []
        (All-map (λ e. (length e.0 ≡ i) × IsMintedBool s.cnf.num_vars e.1)
          (λ e.
            IsMintedBool s.cnf.num_vars e.1
            × All (λ d. IsTurn (i + j - 2) (joined e.0 d.0) × IsMintedBool s.cnf.num_vars d.1)
                b.cells)
          a.cells
          (λ e l. (
            l.1,
            All-map (λ d. (length d.0 ≡ j) × IsMintedBool s.cnf.num_vars d.1)
                (λ d. IsTurn (i + j - 2) (joined e.0 d.0) × IsMintedBool s.cnf.num_vars d.1) b.cells
                (λ d m. (joined-IsTurn i j e.0 d.0 p q k l.0 m.0, m.1)) hb.2,
          ))
          ha.2)
        (tt, tt)

  -- What follows the meter.
  from_scan :
      (t : Circuit.Circuit)
      → Extends 0 s t
      → Total
          (matrix (i + j - 2))
          t
          (2 * (length a.cells * length b.cells))
          (lift (group_pairs a.cells b.cells [])
            >>= (λ groups. set_each (map group_item groups) (empty_matrix (a.arity + b.arity - 2))))
          joins
  from_scan t x =
      let gs = scanned.groups in
      rw (scanned.returns, ha.0, hb.0)
        (from_empty-Total (i + j - 2) (2 * (length a.cells * length b.cells)) (map group_item gs)
          (map group_spec gs) joins
          (IsLoop-map t group_item group_spec gs (
            All-map (IsGroup (i + j - 2) s.cnf.num_vars) (λ g. Sets t (group_item g) (group_spec g))
              gs
              (λ g h.
                group_item-Sets (i + j - 2) t g
                  (h.0, pairs_mono s.cnf.num_vars t.cnf.num_vars g.1 x.grows h.1))
              scanned.valid.1))
          (All-of_map (λ (c : Spec). length c.key ≡ i + j - 2) group_spec gs
            (All-map (IsGroup (i + j - 2) s.cnf.num_vars) (λ g. length g.0 ≡ i + j - 2) gs
              (λ g h. h.0) scanned.valid.1))
          (Apart-map (List Contribution) group_spec gs (λ g. refl) scanned.valid.0)
          (omega (arith, groups_cost_lem gs, scanned.cost))
          (λ ρ u.
            any-map group_spec gs (λ c. same u c.key && c.value ρ)
            ∙ scanned.members (both_true ρ) u))

  pub join-Total :
      Total (matrix (i + j - 2)) s (2 * (length a.cells * length b.cells)) (Encode.join a b) joins
  unfolding Encode.join
  join-Total = cost_le (omega arith) (
      bind-Total {j = 0} {k = 2 * (length a.cells * length b.cells)}
        (meter_scan-Total (length a.cells * length b.cells) s) (λ _ t x _. from_scan t x))

  -- Over two matrices of minted bits with tuples of i and of j atoms, neither 0 and not both 1, in
  -- a well-formed state with room for two gates a pair of cells, the encoder's join returns, and
  -- in every model the set that its result holds is the one that the evaluator's join computes
  -- from the sets that the operands hold.
  pub join-Refines :
      Ready (2 * (length a.cells * length b.cells)) s
      → Refines
          (i + j - 2)
          s
          (2 * (length a.cells * length b.cells))
          (Encode.join a b)
          (λ ρ. Eval.join (set_of ρ a) (set_of ρ b))
  unfolding set_of
  join-Refines ready =
      refines (i + j - 2) joins (λ ρ. Eval.join (set_of ρ a) (set_of ρ b)) (omega arith) join-Total
        ready
        (λ ρ m. at_arity (ap₂ (λ x y. x + y - 2) ha.0 hb.0) (
          returns_same (joins ρ) (λ u. any-set_of_pairs ρ a b (λ t w. inserts (joined t w) u))
            (join_lem (set_of ρ a) (set_of ρ b) (set_of-IsRelation i s.cnf.num_vars ρ a p ha)
              (set_of-IsRelation j s.cnf.num_vars ρ b q hb) (omega (arith, ha.0, hb.0)))))
