-- ===== src/Lasso/Selected.antt =====
-- In a model of the selector's clauses exactly one state is selected, and it is the one recovered.
use mettle.Base.{
  ℕ, zero, suc, ◌+◌, ◌<◌, ◌≤◌, ◌≡◌, refl, sym, ap, ap₂, replicate, subst, ◌∙◌, arith, Bool, true,
  false, not, ◌&&◌, ◌||◌, Bool-cases, List, [], ◌∷◌, ◌++◌, map, Option, none, some, length, any,
  all, all-append, All, All-map, ltb, lt→ltb, inl, inr,
}
use mettle.Solve.{
  Var, Lit, Cnf, fresh_var, add_clause, positive, negative, var, max_vars, Assignment,
}
use mettle.Solve.Models.{Valuation, sat_clause, sat, lit_value-positive, lit_value-negative}
use mettle.Solve.Lits.{var-positive, negative-eq-not, var-not}
use mettle.Solve.Blocking.{bit_at, value-bit_at}
use mettle.Eval.{and_then}
use mettle.Lasso.{
  LassoSelector, mint_vars, with_var, exclude_each, exclude_pairs, mint, scan_states,
  recover_loop_state,
}

-- A run that adds clauses to a formula: it returns, and what satisfies the result satisfies the
-- formula and `P`.
record Adds (cnf : Cnf) (o : Option Cnf) (P : Valuation → Bool) : Type 0 where
  after : Cnf
  returns : o ≡ some after
  same_vars : after.num_vars ≡ cnf.num_vars
  models : (ρ : Valuation) → sat ρ after.clauses ≡ (sat ρ cnf.clauses && P ρ)

abbrev Minted : Cnf → List Var → Type 0
Minted cnf vs = All (λ v. v < cnf.num_vars) vs

add_clause-Adds :
    (cnf : Cnf) (c : List Lit)
    → All (λ l. var l < cnf.num_vars) c
    → Adds cnf (add_clause cnf c) (λ ρ. sat_clause ρ c)
unfolding add_clause
add_clause-Adds cnf c h = record {
  after = record cnf { clauses = cnf.clauses ++ (c ∷ []) };
  returns = rw (in_range c h) refl;
  same_vars = refl;
  models = λ ρ.
      all-append cnf.clauses (c ∷ []) (sat_clause ρ)
      ∙ ap (λ b. sat ρ cnf.clauses && b) (and_true (sat_clause ρ c));
}
  where
    in_range :
        (ls : List Lit)
        → All (λ l. var l < cnf.num_vars) ls
        → all ls (λ l. ltb (var l) cnf.num_vars) ≡ true
    in_range [] k = refl
    in_range (l ∷ ls) k = rw (lt→ltb (var l) cnf.num_vars k.0) (in_range ls k.1)

    and_true : (b : Bool) → (b && true) ≡ b
    and_true b = ground arith

var-negative : (v : Var) → v ≤ max_vars → var (negative v) ≡ v
var-negative v h = rw (← negative-eq-not v) (var-not (positive v) ∙ var-positive v h)

exclude_each-Adds :
    (v : Var) (ws : List Var) (cnf : Cnf)
    → cnf.num_vars ≤ max_vars
    → v < cnf.num_vars
    → Minted cnf ws
    → Adds cnf (exclude_each v ws cnf) (λ ρ. all ws (λ w. not (ρ v && ρ w)))
unfolding exclude_each
exclude_each-Adds v [] cnf m h k = record {
  after = cnf;
  returns = refl;
  same_vars = refl;
  models = λ ρ. ground arith;
}
exclude_each-Adds v (w ∷ ws) cnf m h k =
    let lv : v ≤ max_vars = omega (arith, m, h) in
    let lw : w ≤ max_vars = omega (arith, m, k.0) in
    let one =
      add_clause-Adds cnf (negative v ∷ negative w ∷ [])
        (omega (arith, var-negative v lv, h), (omega (arith, var-negative w lw, k.0), tt)) in
    let more =
      exclude_each-Adds v ws one.after (omega (arith, m, one.same_vars))
        (omega (arith, h, one.same_vars))
        (subst (λ n. All (λ x. x < n) ws) (sym one.same_vars) k.1) in
    record {
      after = more.after;
      returns = rw one.returns more.returns;
      same_vars = more.same_vars ∙ one.same_vars;
      models = λ ρ.
          more.models ρ
          ∙ ground (arith, one.models ρ, lit_value-negative ρ v lv, lit_value-negative ρ w lw);
    }

-- No two of the variables are true.
abbrev alone : Valuation → List Var → Bool
alone ρ [] = true
alone ρ (v ∷ vs) = all vs (λ w. not (ρ v && ρ w)) && alone ρ vs

exclude_pairs-Adds :
    (vs : List Var) (cnf : Cnf)
    → cnf.num_vars ≤ max_vars
    → Minted cnf vs
    → Adds cnf (exclude_pairs vs cnf) (λ ρ. alone ρ vs)
unfolding exclude_pairs
exclude_pairs-Adds [] cnf m k = record {
  after = cnf;
  returns = refl;
  same_vars = refl;
  models = λ ρ. ground arith;
}
exclude_pairs-Adds (v ∷ vs) cnf m k =
    let one = exclude_each-Adds v vs cnf m k.0 k.1 in
    let more =
      exclude_pairs-Adds vs one.after (omega (arith, m, one.same_vars))
        (subst (λ n. All (λ x. x < n) vs) (sym one.same_vars) k.1) in
    record {
      after = more.after;
      returns = rw one.returns more.returns;
      same_vars = more.same_vars ∙ one.same_vars;
      models = λ ρ. more.models ρ ∙ ground (arith, one.models ρ);
    }

record Minting (k : ℕ) (cnf : Cnf) : Type 0 where
  vars : List Var
  after : Cnf
  returns : mint_vars k cnf ≡ some (vars, after)
  count : length vars ≡ k
  same_clauses : after.clauses ≡ cnf.clauses
  grows : after.num_vars ≡ cnf.num_vars + k
  minted : All (λ v. v < after.num_vars) vars

mint_vars_lem : (k : ℕ) (cnf : Cnf) → cnf.num_vars + k ≤ max_vars → Minting k cnf
unfolding mint_vars fresh_var
mint_vars_lem zero cnf h = record {
  vars = [];
  after = cnf;
  returns = refl;
  count = refl;
  same_clauses = refl;
  grows = omega arith;
  minted = tt;
}
mint_vars_lem (suc k) cnf h =
    let rest = mint_vars_lem k (record cnf { num_vars = cnf.num_vars + 1 }) (omega (arith, h)) in
    record {
      vars = cnf.num_vars ∷ rest.vars;
      after = rest.after;
      returns =
          rw (lt→ltb cnf.num_vars max_vars (omega (arith, h)))
            (ap (λ o. and_then o (with_var cnf.num_vars)) rest.returns);
      count = ap suc rest.count;
      same_clauses = rest.same_clauses;
      grows = omega (arith, rest.grows);
      minted = (omega (arith, rest.grows), rest.minted);
    }

any-positive :
    (ρ : Valuation) (vs : List Var)
    → All (λ v. v ≤ max_vars) vs
    → sat_clause ρ (map positive vs) ≡ any vs ρ
any-positive ρ [] h = refl
any-positive ρ (v ∷ vs) h = ap₂ ◌||◌ (lit_value-positive ρ v h.0) (any-positive ρ vs h.1)

positive_range :
    (n : ℕ) (vs : List Var)
    → n ≤ max_vars
    → All (λ v. v < n) vs
    → All (λ l. var l < n) (map positive vs)
positive_range n [] m h = tt
positive_range n (v ∷ vs) m h =
    (omega (arith, var-positive v (omega (arith, m, h.0)), h.0), positive_range n vs m h.1)

-- The bits of `k` states of which only the state `l` is true.
abbrev pub only : ℕ → ℕ → List Bool
only l zero = []
only zero (suc k) = true ∷ replicate k false
only (suc l) (suc k) = false ∷ only l k

record Scanned (i : ℕ) (vs : List Var) (a : Assignment) : Type 0 where
  offset : ℕ
  returns : scan_states i none vs a ≡ some (some (i + offset))
  inside : offset < length vs
  bits : map (bit_at a) vs ≡ only offset (length vs)

scan_false :
    (i : ℕ) (found : Option ℕ) (vs : List Var) (a : Assignment)
    → All (λ v. v < length a) vs
    → any vs (bit_at a) ≡ false
    → (scan_states i found vs a ≡ some found) × (map (bit_at a) vs ≡ replicate (length vs) false)
unfolding scan_states
scan_false i found [] a h k = (refl, refl)
scan_false i found (v ∷ vs) a h k =
    let off : bit_at a v ≡ false = ground (arith, k) in
    let rest = scan_false (suc i) found vs a h.1 (ground (arith, k)) in
    (rw (value-bit_at a v h.0, off) rest.0, ap₂ ◌∷◌ off rest.1)

none_beside :
    (ρ : Valuation) (v : Var) (vs : List Var)
    → ρ v ≡ true
    → all vs (λ w. not (ρ v && ρ w)) ≡ true
    → any vs ρ ≡ false
none_beside ρ v [] e h = refl
none_beside ρ v (w ∷ vs) e h = ground (arith, e, h, none_beside ρ v vs e)

scan_lem :
    (i : ℕ) (vs : List Var) (a : Assignment)
    → All (λ v. v < length a) vs
    → any vs (bit_at a) ≡ true
    → alone (bit_at a) vs ≡ true
    → Scanned i vs a
unfolding scan_states
scan_lem i [] a h k l = absurd (cc k)
scan_lem i (v ∷ vs) a h k l = elim (Bool-cases (bit_at a v)) [
  | inl e ↦
      let rest =
        scan_false (suc i) (some i) vs a h.1 (none_beside (bit_at a) v vs e (ground (arith, l))) in
      record {
        offset = 0;
        returns = rw (value-bit_at a v h.0, e) (rest.0 ∙ ap (λ n. some (some n)) (omega arith));
        inside = omega arith;
        bits = ap₂ ◌∷◌ e rest.1;
      }
  | inr e ↦
      let rest = scan_lem (suc i) vs a h.1 (ground (arith, k, e)) (ground (arith, l)) in
      record {
        offset = suc rest.offset;
        returns =
            rw (value-bit_at a v h.0, e) (rest.returns ∙ ap (λ n. some (some n)) (omega arith));
        inside = omega (arith, rest.inside);
        bits = ap₂ ◌∷◌ e rest.bits;
      }
]

-- The state that is selected.
abbrev pub Recovers : ℕ → Assignment → LassoSelector → Type 0
Recovers k a lasso =
    (l : ℕ) × (recover_loop_state lasso a ≡ some l) × (l < k) × (map (bit_at a) lasso ≡ only l k)

zero_plus : (n : ℕ) → some (0 + n) ≡ some n
zero_plus n = ap some (omega arith)

scanned-Recovers :
    (vs : List Var) (a : Assignment)
    → All (λ v. v < length a) vs
    → any vs (bit_at a) ≡ true
    → alone (bit_at a) vs ≡ true
    → Recovers (length vs) a vs
unfolding recover_loop_state
scanned-Recovers vs a h k l =
    let r = scan_lem 0 vs a h k l in (r.offset, rw r.returns (zero_plus r.offset), r.inside, r.bits)

-- A selector of exactly one state of `k`, over the formula of `cnf`.
pub record Selects (k : ℕ) (cnf : Cnf) (a : Assignment) (o : Option (LassoSelector × Cnf))
    : Type 0 where
  pub lasso : LassoSelector
  pub after : Cnf
  pub returns : o ≡ some (lasso, after)
  pub models :
      sat (bit_at a) after.clauses
      ≡ (sat (bit_at a) cnf.clauses && (any lasso (bit_at a) && alone (bit_at a) lasso))
  pub recovered : sat (bit_at a) after.clauses ≡ true → Recovers k a lasso

pub mint-Selects :
    (k : ℕ) (cnf : Cnf) (a : Assignment)
    → 0 < k
    → cnf.num_vars + k ≤ max_vars
    → cnf.num_vars + k ≤ length a
    → Selects k cnf a (mint k cnf)
unfolding mint
mint-Selects zero cnf a p h c = absurd (omega arith)
mint-Selects (suc k) cnf a p h c =
    let m = mint_vars_lem (suc k) cnf h in
    let n : m.after.num_vars ≤ max_vars = omega (arith, m.grows, h) in
    let one =
      add_clause-Adds m.after (map positive m.vars)
        (positive_range m.after.num_vars m.vars n m.minted) in
    let all_pairs =
      exclude_pairs-Adds m.vars one.after (omega (arith, n, one.same_vars))
        (subst (λ i. All (λ v. v < i) m.vars) (sym one.same_vars) m.minted) in
    let model : sat (bit_at a) all_pairs.after.clauses
        ≡ (sat (bit_at a) cnf.clauses && (any m.vars (bit_at a) && alone (bit_at a) m.vars)) =
      ground (
        arith,
        all_pairs.models (bit_at a),
        one.models (bit_at a),
        ap (sat (bit_at a)) m.same_clauses,
        any-positive (bit_at a) m.vars (
            All-map (λ v. v < m.after.num_vars) (λ v. v ≤ max_vars) m.vars
              (λ v q. omega (arith, q, n)) m.minted),
      ) in
    record {
      lasso = m.vars;
      after = all_pairs.after;
      returns = rw m.returns (rw one.returns (rw all_pairs.returns refl));
      models = model;
      recovered = λ t.
          subst (λ i. Recovers i a m.vars) m.count
            (scanned-Recovers m.vars a
              (All-map (λ v. v < m.after.num_vars) (λ v. v < length a) m.vars
                (λ v q. omega (arith, q, m.grows, c)) m.minted)
              (part_true _ _ _ _ model t) (other_true _ _ _ _ model t));
    }
  where
    part_true : (x y z w : Bool) → x ≡ (y && (z && w)) → x ≡ true → z ≡ true
    part_true x y z w e f = ground (arith, e, f)

    other_true : (x y z w : Bool) → x ≡ (y && (z && w)) → x ≡ true → w ≡ true
    other_true x y z w e f = ground (arith, e, f)

-- Over the selector that mint makes of k states, k not 0, in a pool with room for k more
-- variables: when an assignment that covers the new variables satisfies the formula after mint,
-- recover_loop_state does not panic and returns a state below k, and the bits of the selector's
-- variables are true at that state and false at all others.
pub recover_loop_state_lem :
    (k : ℕ) (cnf after : Cnf) (lasso : LassoSelector) (a : Assignment)
    → 0 < k
    → cnf.num_vars + k ≤ max_vars
    → cnf.num_vars + k ≤ length a
    → mint k cnf ≡ some (lasso, after)
    → sat (bit_at a) after.clauses ≡ true
    → Recovers k a lasso
recover_loop_state_lem k cnf after lasso a p h c q t =
    let r = mint-Selects k cnf a p h c in
    let same_result : (r.lasso, r.after) ≡ (lasso, after) =
      ap (minted_or (r.lasso, r.after)) (sym r.returns ∙ q) in
    subst (λ (d : LassoSelector × Cnf). sat (bit_at a) d.1.clauses ≡ true → Recovers k a d.0)
      same_result r.recovered t
  where
    minted_or : LassoSelector × Cnf → Option (LassoSelector × Cnf) → LassoSelector × Cnf
    minted_or d none = d
    minted_or d (some e) = e
