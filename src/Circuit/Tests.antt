-- ===== src/Circuit/Tests.antt =====
-- Runs of the gate constructors, and the contracts at a pool of four variables.
use mettle.Base.{
  ℕ, ◌≤◌, ◌≡◌, refl, arith, true, false, not, beq, xor, ◌||◌, List, [], ◌∷◌, map, some,
  if◌then◌else◌,
}
use mettle.Solve.{lit_not, fresh_var, add_clause, var, positive}
use mettle.Circuit
use mettle.Circuit.{CircuitBool, const, lit, and_many, or_many, meter, implies, iff, ite}
use mettle.Circuit.Conjunction.{every, some_true}
use mettle.Circuit.Contracts.{Gives, many_contract, connectives_contract}
use mettle.Circuit.Members.{member}
use mettle.Circuit.Model.{IsWellFormed, Ready, bool_value}
use mettle.Circuit.Sharing.{and_many_again}

abbrev pub four : Circuit.Circuit
four = record { cnf = record { num_vars = 4; clauses = [] }; ops = 0; gates = [] }

pub four-IsWellFormed : IsWellFormed four
four-IsWellFormed = record {
  bounded = omega arith;
  clauses_minted = tt;
  gates_minted = tt;
  gates_sound = λ ρ _. tt;
}

pub four-Ready : (k : ℕ) → k ≤ 1000000 → Ready k four
four-Ready k h = record { valid = four-IsWellFormed; room = omega arith }

-- One gate for the conjunction of the variables 0 and 1.
abbrev gate_clauses : List (List ℕ)
gate_clauses = (9 ∷ 0 ∷ []) ∷ (9 ∷ 2 ∷ []) ∷ (8 ∷ 1 ∷ 3 ∷ []) ∷ []

abbrev with_gate : Circuit.Circuit
with_gate = record {
  cnf = record { num_vars = 5; clauses = gate_clauses };
  ops = 3;
  gates = (0 ∷ 2 ∷ [], 8) ∷ [];
}

and_many_mints : and_many (map lit (0 ∷ 2 ∷ [])) four ≡ some (lit 8, with_gate)
unfolding and_many lit_not fresh_var add_clause var positive
and_many_mints = refl

or_many_folds : or_many (lit 0 ∷ const true ∷ []) four ≡ some (const true, meter 2 four)
unfolding or_many
or_many_folds = refl

and_many_clashes : and_many (lit 0 ∷ lit 1 ∷ []) four ≡ some (const false, meter 2 four)
unfolding and_many lit_not
and_many_clashes = refl

same_members : (x : ℕ) → member x (0 ∷ 2 ∷ []) ≡ member x (2 ∷ 0 ∷ 2 ∷ [])
same_members x = ground arith

and_many_again_example :
    and_many (map lit (2 ∷ 0 ∷ 2 ∷ [])) with_gate ≡ some (lit 8, meter 3 with_gate)
and_many_again_example =
    and_many_again (0 ∷ 2 ∷ []) (2 ∷ 0 ∷ 2 ∷ []) four with_gate (lit 8) and_many_mints same_members

many_contract_example :
    Gives four 1
      (and_many (lit 0 ∷ const true ∷ lit 3 ∷ []))
      (λ ρ. every (map (bool_value ρ) (lit 0 ∷ const true ∷ lit 3 ∷ [])))
    × Gives four 1
        (or_many (lit 0 ∷ const true ∷ lit 3 ∷ []))
        (λ ρ. some_true (map (bool_value ρ) (lit 0 ∷ const true ∷ lit 3 ∷ [])))
unfolding var
many_contract_example =
    many_contract (lit 0 ∷ const true ∷ lit 3 ∷ []) (omega arith, (tt, (omega arith, tt)))
      (four-Ready 1 (omega arith))

connectives_contract_example :
    Gives four 3 (implies (lit 0) (lit 2)) (λ ρ. not (bool_value ρ (lit 0)) || bool_value ρ (lit 2))
    × Gives four 3 (iff (lit 0) (lit 2)) (λ ρ. beq (bool_value ρ (lit 0)) (bool_value ρ (lit 2)))
    × Gives four 3
        (Circuit.xor (lit 0) (lit 2))
        (λ ρ. xor (bool_value ρ (lit 0)) (bool_value ρ (lit 2)))
    × Gives four 3
        (ite (lit 5) (lit 0) (lit 2))
        (λ ρ. if bool_value ρ (lit 5) then bool_value ρ (lit 0) else bool_value ρ (lit 2))
unfolding var
connectives_contract_example =
    connectives_contract (lit 0) (lit 2) (lit 5) (omega arith) (omega arith) (omega arith)
      (four-Ready 3 (omega arith))
