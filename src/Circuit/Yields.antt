-- ===== src/Circuit/Yields.antt =====
-- The contract of a gate constructor: from a well-formed state with room for `k` variables it
-- returns, the state after it is well-formed and extends the one before, and in each model of the
-- formula the result's value satisfies `P`.
use mettle.Base.{ℕ, ◌+◌, ◌≡◌, sym, ap, ◌∙◌, subst, arith, some}
use mettle.Solve.Models.{Valuation}
use mettle.Circuit.{Circuit, M, ◌>>=◌, bind_at}
use mettle.Circuit.Model.{
  Models, IsWellFormed, Extends, Extends-trans, Shape, Denotes, Ready, Total,
}

pub record Yields {A B : Type 0} (x : Shape A B) (s : Circuit) (k : ℕ) (m : M A)
    (P : Valuation → B → Type 0) : Type 0 where
  pub result : A
  pub state : Circuit
  pub runs : m s ≡ some (result, state)
  pub valid : IsWellFormed state
  pub extends : Extends k s state
  pub minted : x.minted state.cnf.num_vars result
  pub holds : (ρ : Valuation) → Models ρ state → P ρ (x.eval ρ result)

pub total-Yields :
    {A B : Type 0} {x : Shape A B} {s : Circuit} {k : ℕ} {m : M A} {g : Valuation → B}
    (P : Valuation → B → Type 0)
    → ((ρ : Valuation) → Models ρ s → P ρ (g ρ))
    → Total x s k m g
    → Ready k s
    → Yields x s k m P
total-Yields P h c r =
    let d = c r in
    record {
      result = d.result;
      state = d.state;
      runs = d.runs;
      valid = d.valid;
      extends = d.extends;
      minted = d.denotes.minted;
      holds = λ ρ i. subst (P ρ) (sym (d.denotes.value ρ i)) (h ρ (d.extends.keeps ρ i));
    }

-- A contract for the rest of a `do` block gives one for the whole.
pub bind_Yields :
    {A B C D : Type 0} {x : Shape A B} {y : Shape C D} {s : Circuit} {j k : ℕ} {m : M A}
    {f : A → M C} {g : Valuation → B} {P : Valuation → D → Type 0}
    → Total x s j m g
    → ((a : A) (t : Circuit) → Extends j s t → Denotes x t a g → Ready k t → Yields y t k (f a) P)
    → Ready (j + k) s
    → Yields y s (j + k) (m >>= f) P
bind_Yields {f} c rest r =
    let d = c (record { valid = r.valid; room = omega arith }) in
    let e =
      rest d.result d.state d.extends d.denotes
        (record { valid = d.valid; room = omega (arith, d.extends.cost, r.room) }) in
    record {
      result = e.result;
      state = e.state;
      runs = ap (λ o. bind_at o f) d.runs ∙ e.runs;
      valid = e.valid;
      extends = Extends-trans d.extends e.extends;
      minted = e.minted;
      holds = e.holds;
    }
