-- ===== src/Circuit/Conjunction.antt =====
-- The conjunction of any operands: constants folded away, the rest made canonical, a gate reused
-- or minted.
use mettle.Base.{
  ℕ, ◌≡◌, refl, sym, ap, ◌∙◌, arith, Bool, true, false, ◌&&◌, List, [], ◌∷◌, map, some, none, All,
  all, any, Bool-cases, Option-cases, inl, inr,
}
use mettle.Solve.{Lit}
use mettle.Solve.Models.{Valuation, lit_value, IsMinted}
use mettle.Circuit
use mettle.Circuit.{
  CircuitBool, const, lit, M, pure, bind_at, ◌>>=◌, collect_lits, push_lit, canonical, has_clash,
  gate_of, and_core, and_many, or_many, bool_not, meter, and, or, implies, iff, ite,
}
use mettle.Circuit.Canonical.{conj, conj-canonical, has_clash-conj, All-canonical}
use mettle.Circuit.Gate.{gate_of-Total}
use mettle.Circuit.Model.{
  Denotes, Total, bit, bits, bool_value, IsMintedBool, pure-Total, cost_le, runs_same, same-Total,
}

-- The conjunction and the disjunction of truth values.
abbrev pub every : List Bool → Bool
every bs = all bs (λ b. b)

abbrev pub some_true : List Bool → Bool
some_true bs = any bs (λ b. b)

-- The value of a constant operand list and of its literals.
record Collected (n : ℕ) (items : List CircuitBool) (ls : List Lit) : Type 0 where
  minted : All (IsMinted n) ls
  value : (ρ : Valuation) → every (map (bool_value ρ) items) ≡ conj ρ ls

collect_lits-some :
    (n : ℕ) (items : List CircuitBool) (ls : List Lit)
    → All (IsMintedBool n) items
    → collect_lits items ≡ some ls
    → Collected n items ls
unfolding collect_lits
collect_lits-some n [] ls h e =
    let q : [] ≡ ls = cc in rw (← q) (record { minted = tt; value = λ ρ. refl })
collect_lits-some n (const false ∷ bs) ls h e = absurd (cc e)
collect_lits-some n (const true ∷ bs) ls h e =
    let r = collect_lits-some n bs ls h.1 e in record { minted = r.minted; value = r.value }
collect_lits-some n (lit l ∷ bs) ls h e = elim (Option-cases (collect_lits bs)) [
  | inl q ↦ absurd (cc (rw q at e))
  | inr (ms, q) ↦
      let r = collect_lits-some n bs ms h.1 q in
      let found : some (l ∷ ms) ≡ some ls = rw q at e in
      let here : l ∷ ms ≡ ls = cc in
      rw (← here)
        (record { minted = (h.0, r.minted); value = λ ρ. ap (λ b. lit_value ρ l && b) (r.value ρ) })
]

and_false : (b : Bool) → (b && false) ≡ false
and_false true = refl
and_false false = refl

collect_lits-none :
    (ρ : Valuation) (items : List CircuitBool)
    → collect_lits items ≡ none
    → every (map (bool_value ρ) items) ≡ false
unfolding collect_lits
collect_lits-none ρ [] e = absurd (cc e)
collect_lits-none ρ (const false ∷ bs) e = refl
collect_lits-none ρ (const true ∷ bs) e = collect_lits-none ρ bs e
collect_lits-none ρ (lit l ∷ bs) e = elim (Option-cases (collect_lits bs)) [
  | inl q ↦ ap (λ b. lit_value ρ l && b) (collect_lits-none ρ bs q) ∙ and_false (lit_value ρ l)
  | inr (ms, q) ↦ absurd (cc (rw q at e))
]

module _ {n : ℕ} {s : Circuit.Circuit} {items : List CircuitBool} {g : Valuation → List Bool} where
  false-Total :
      Denotes (bits n) s items g
      → ((ρ : Valuation) → every (map (bool_value ρ) items) ≡ false)
      → Total bit s 1 (pure (const false)) (λ ρ. every (g ρ))
  false-Total d h =
      cost_le (omega arith)
        (pure-Total (record { minted = tt; value = λ ρ m. sym (h ρ) ∙ ap every (d.value ρ m) }))

  canonical-Total :
      (ls : List Lit)
      → Denotes (bits n) s items g
      → Collected s.cnf.num_vars items ls
      → Total bit s 1 (gate_of (canonical ls)) (λ ρ. every (g ρ))
  canonical-Total ls d c =
      same-Total (λ ρ m. conj-canonical ρ ls ∙ sym (c.value ρ) ∙ ap every (d.value ρ m))
        (gate_of-Total s (canonical ls) (All-canonical (IsMinted s.cnf.num_vars) ls c.minted))

  pub and_core-Total :
      Denotes (bits n) s items g → Total bit s 1 (and_core items) (λ ρ. every (g ρ))
  unfolding and_core
  and_core-Total d = elim (Option-cases (collect_lits items)) [
    | inl q ↦ runs_same (rw (q, and_core)) (false-Total d (λ ρ. collect_lits-none ρ items q))
    | inr (ls, q) ↦
        let c = collect_lits-some s.cnf.num_vars items ls d.minted.1 q in
        elim (Bool-cases (has_clash (canonical ls))) [
          | inl e ↦ runs_same (rw (q, and_core, e)) (
              false-Total d
                (λ ρ. c.value ρ ∙ sym (conj-canonical ρ ls) ∙ has_clash-conj ρ (canonical ls) e))
          | inr e ↦ runs_same (rw (q, and_core, e)) (canonical-Total ls d c)
        ]
  ]
