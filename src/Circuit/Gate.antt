-- ===== src/Circuit/Gate.antt =====
-- A new gate: one fresh variable, defined by its clauses to be the conjunction of the operands.
use mettle.Base.{
  ◌+◌, ◌<◌, ◌≡◌, refl, sym, ap, ◌∙◌, arith, Bool, true, false, beq, ◌&&◌, List, [], ◌∷◌, ◌++◌, some,
  All, All-map, All-append, all-append, ◌==◌, if◌then◌else◌, Option-cases, inl, inr, lt→ltb,
}
use mettle.Solve.{Lit, Var, Cnf, positive, fresh_var, max_vars}
use mettle.Solve.Lits.{var-positive}
use mettle.Solve.Models.{
  Valuation, lit_value, sat, sat_clause, IsMinted, Agree, sat-Agree, all_lits-Agree,
  lit_value-positive,
}
use mettle.Circuit.{lit, Circuit, mint_gate, cached_gate, gate_of, insert, get, pure}
use mettle.Circuit.Canonical.{conj}
use mettle.Circuit.Cache.{insert-All, get-All}
use mettle.Circuit.Define.{defining, sat-defining, defining-IsMinted, define_gate_lem}
use mettle.Circuit.Model.{
  Models, Defines, IsWellFormed, Computes, Total, bit, pure-Total, cost_le, runs_same,
}

-- The valuation with the value of one variable set.
abbrev update : Valuation → Var → Bool → Valuation
update ρ n b v = if v == n then b else ρ v

update-Agree : (ρ : Valuation) (n : Var) (b : Bool) → Agree n ρ (update ρ n b)
update-Agree ρ n b v h = ground arith

update_self : (ρ : Valuation) (n : Var) (b : Bool) → update ρ n b n ≡ b
update_self ρ n b = ground arith

fresh_var_lem :
    (c : Cnf)
    → c.num_vars < max_vars
    → fresh_var c ≡ some (record { var = c.num_vars; cnf = record c { num_vars = c.num_vars + 1 } })
unfolding fresh_var
fresh_var_lem c h = rw (lt→ltb c.num_vars max_vars h)

beq_refl : (b : Bool) → beq b b ≡ true
beq_refl true = refl
beq_refl false = refl

module _ (s : Circuit) (ls : List Lit) where
  -- The literal, the formula and the state after a new gate for `ls`.
  abbrev gate_lit : Lit
  gate_lit = positive s.cnf.num_vars

  abbrev gate_cnf : Cnf
  gate_cnf = record {
    num_vars = s.cnf.num_vars + 1;
    clauses = s.cnf.clauses ++ defining gate_lit ls (gate_lit ∷ []);
  }

  abbrev gate_state : Circuit
  gate_state = record s { cnf = gate_cnf; gates = insert s.gates ls gate_lit }

  module _ (valid : IsWellFormed s) (room : s.cnf.num_vars < max_vars)
      (operands : All (IsMinted s.cnf.num_vars) ls) where
    gate_lit-IsMinted : IsMinted (s.cnf.num_vars + 1) gate_lit
    gate_lit-IsMinted = omega (arith, var-positive s.cnf.num_vars (omega arith))

    operands_later : All (IsMinted (s.cnf.num_vars + 1)) ls
    operands_later =
        All-map (IsMinted s.cnf.num_vars) (IsMinted (s.cnf.num_vars + 1)) ls (λ l h. omega arith)
          operands

    mint_gate_runs : mint_gate ls s ≡ some (lit gate_lit, gate_state)
    unfolding mint_gate
    mint_gate_runs =
        rw (fresh_var_lem s.cnf room, mint_gate)
          (rw (
            define_gate_lem gate_lit ls (gate_lit ∷ [])
              (record s.cnf { num_vars = s.cnf.num_vars + 1 }) gate_lit-IsMinted operands_later
              (gate_lit-IsMinted, tt)))

    split :
        (ρ : Valuation)
        → sat ρ gate_cnf.clauses ≡ (sat ρ s.cnf.clauses && beq (lit_value ρ gate_lit) (conj ρ ls))
    split ρ =
        all-append s.cnf.clauses (defining gate_lit ls (gate_lit ∷ [])) (sat_clause ρ)
        ∙ ap (λ b. sat ρ s.cnf.clauses && b) (sat-defining ρ gate_lit ls)

    gate_keeps : (ρ : Valuation) → Models ρ gate_state → Models ρ s
    gate_keeps ρ h = ground (arith, split ρ)

    gate_defined : (ρ : Valuation) → Models ρ gate_state → lit_value ρ gate_lit ≡ conj ρ ls
    gate_defined ρ h = ground (arith, split ρ)

    gate_conservative :
        (ρ : Valuation)
        → Models ρ s
        → (σ : Valuation) × Agree s.cnf.num_vars ρ σ × Models σ gate_state
    gate_conservative ρ h =
        let σ = update ρ s.cnf.num_vars (conj ρ ls) in
        let agree = update-Agree ρ s.cnf.num_vars (conj ρ ls) in
        let old : sat σ s.cnf.clauses ≡ true =
          sym (sat-Agree s.cnf.num_vars ρ σ s.cnf.clauses agree valid.clauses_minted) ∙ h in
        let operands_same = all_lits-Agree s.cnf.num_vars ρ σ ls agree operands in
        let new : lit_value σ gate_lit ≡ conj σ ls =
          lit_value-positive σ s.cnf.num_vars (omega arith)
          ∙ update_self ρ s.cnf.num_vars (conj ρ ls)
          ∙ operands_same in
        (σ, agree, split σ ∙ rw (old, new) (beq_refl (conj σ ls)))

    gate_valid : IsWellFormed gate_state
    gate_valid = record {
      bounded = omega arith;
      clauses_minted =
          All-append (All (IsMinted (s.cnf.num_vars + 1))) s.cnf.clauses
            (defining gate_lit ls (gate_lit ∷ []))
            (All-map (All (IsMinted s.cnf.num_vars)) (All (IsMinted (s.cnf.num_vars + 1)))
              s.cnf.clauses
              (λ c.
                All-map (IsMinted s.cnf.num_vars) (IsMinted (s.cnf.num_vars + 1)) c
                  (λ l h. omega arith))
              valid.clauses_minted)
            (defining-IsMinted (s.cnf.num_vars + 1) gate_lit ls (gate_lit ∷ []) gate_lit-IsMinted
              operands_later (gate_lit-IsMinted, tt));
      gates_minted =
          insert-All (λ e. IsMinted (s.cnf.num_vars + 1) e.1) s.gates ls gate_lit
            (All-map (λ e. IsMinted s.cnf.num_vars e.1) (λ e. IsMinted (s.cnf.num_vars + 1) e.1)
              s.gates (λ e h. omega arith) valid.gates_minted)
            gate_lit-IsMinted;
      gates_sound = λ ρ h.
          insert-All (Defines ρ) s.gates ls gate_lit (valid.gates_sound ρ (gate_keeps ρ h))
            (gate_defined ρ h);
    }

    gate-Computes : Computes bit s 1 (mint_gate ls) (λ ρ. conj ρ ls)
    gate-Computes = record {
      result = lit gate_lit;
      state = gate_state;
      runs = mint_gate_runs;
      valid = gate_valid;
      extends = record {
        grows = omega arith;
        cost = omega arith;
        keeps = gate_keeps;
        conservative = gate_conservative;
      };
      denotes = record { minted = gate_lit-IsMinted; value = gate_defined };
    }

  cached_gate-Total :
      All (IsMinted s.cnf.num_vars) ls → Total bit s 1 (cached_gate ls) (λ ρ. conj ρ ls)
  unfolding cached_gate
  cached_gate-Total operands ready = elim (Option-cases (get s.gates ls)) [
    | inl miss ↦
        runs_same {m = mint_gate ls} (rw (miss, cached_gate))
          (λ r. gate-Computes r.valid (omega (arith, r.room)) operands) ready
    | inr (hit, e) ↦
        runs_same {m = pure (lit hit)} (rw (e, cached_gate))
          (cost_le (omega arith) (
            pure-Total (record {
              minted =
                  get-All (λ c. IsMinted s.cnf.num_vars c.1) s.gates ls hit ready.valid.gates_minted
                    e;
              value = λ ρ h. get-All (Defines ρ) s.gates ls hit (ready.valid.gates_sound ρ h) e;
            })))
          ready
  ]

one_operand : (b : Bool) → b ≡ (b && true)
one_operand true = refl
one_operand false = refl

-- The gate for a canonical operand list computes their conjunction, with one new variable at most.
pub gate_of-Total :
    (s : Circuit) (ls : List Lit)
    → All (IsMinted s.cnf.num_vars) ls
    → Total bit s 1 (gate_of ls) (λ ρ. conj ρ ls)
unfolding gate_of
gate_of-Total s [] h =
    cost_le (omega arith) (pure-Total (record { minted = tt; value = λ ρ m. refl }))
gate_of-Total s (l ∷ []) h =
    cost_le (omega arith)
      (pure-Total (record { minted = h.0; value = λ ρ m. one_operand (lit_value ρ l) }))
gate_of-Total s (l ∷ m ∷ ms) h = cached_gate-Total s (l ∷ m ∷ ms) h
