-- ===== src/Circuit/Contracts.antt =====
-- The contracts of the gate constructors, from a well-formed state with room for their variables.
use mettle.Base.{
  ℕ, arith, ◌≡◌, refl, Bool, not, beq, xor, ◌||◌, List, map, All, length, if◌then◌else◌,
}
use mettle.Solve.Models.{Valuation}
use mettle.Circuit
use mettle.Circuit.{CircuitBool, and_many, or_many, and, or, implies, iff, ite}
use mettle.Circuit.Conjunction.{every, some_true}
use mettle.Circuit.Model.{Ready, Total, bit, bits, bool_value, IsMintedBool, self-Denotes, cost_le}
use mettle.Circuit.Operations.{
  and_many-Total, or_many-Total, implies-Total, iff_Total, xor-Total, ite-Total,
}
use mettle.Circuit.Yields.{Yields, total-Yields}

-- A gate constructor whose result equals `g`, at a cost of at most `k` variables.
abbrev pub Gives : Circuit.Circuit → ℕ → Circuit.M CircuitBool → (Valuation → Bool) → Type 0
Gives s k m g = Yields bit s k m (λ ρ r. r ≡ g ρ)

gives :
    {s : Circuit.Circuit} {k : ℕ} {m : Circuit.M CircuitBool} {g : Valuation → Bool}
    → Total bit s k m g
    → Ready k s
    → Gives s k m g
gives {g} c r = total-Yields (λ ρ b. b ≡ g ρ) (λ ρ _. refl) c r

-- Over a list of minted operands, in a well-formed state with room for one variable, and_many
-- returns their conjunction and or_many their disjunction, in every model of the formula after it,
-- which is well-formed and extends the first one.
pub many_contract :
    (items : List CircuitBool) {s : Circuit.Circuit}
    → All (IsMintedBool s.cnf.num_vars) items
    → Ready 1 s
    → Gives s 1 (and_many items) (λ ρ. every (map (bool_value ρ) items))
      × Gives s 1 (or_many items) (λ ρ. some_true (map (bool_value ρ) items))
many_contract items {s} h r =
    let d = self-Denotes {x = bits (length items)} {s = s} {a = items} (refl, h) in
    (gives (and_many-Total d) r, gives (or_many-Total d) r)

-- Over minted operands, in a well-formed state with room for three variables, implies, iff, xor
-- and ite each return a minted result in a well-formed state that extends the first one (each
-- model of the old formula extends to one of the new), and in every model the result is the
-- Boolean function of that name.
pub connectives_contract :
    (a b c : CircuitBool) {s : Circuit.Circuit}
    → IsMintedBool s.cnf.num_vars a
    → IsMintedBool s.cnf.num_vars b
    → IsMintedBool s.cnf.num_vars c
    → Ready 3 s
    → Gives s 3 (implies a b) (λ ρ. not (bool_value ρ a) || bool_value ρ b)
      × Gives s 3 (iff a b) (λ ρ. beq (bool_value ρ a) (bool_value ρ b))
      × Gives s 3 (Circuit.xor a b) (λ ρ. xor (bool_value ρ a) (bool_value ρ b))
      × Gives s 3 (ite c a b) (λ ρ. if bool_value ρ c then bool_value ρ a else bool_value ρ b)
connectives_contract a b c {s} ha hb hc r =
    let da = self-Denotes {x = bit} {s = s} {a = a} ha in
    let db = self-Denotes {x = bit} {s = s} {a = b} hb in
    let dc = self-Denotes {x = bit} {s = s} {a = c} hc in
    (
      gives (cost_le (omega arith) (implies-Total da db)) r,
      gives (iff_Total a b da db) r,
      gives (xor-Total a b da db) r,
      gives (ite-Total c dc da db) r,
    )
