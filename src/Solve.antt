-- ===== src/Solve.antt =====
-- crates/als-solve/src/lib.rs: variables, literals, the CNF under construction, assignments and
-- blocking clauses. A panic is `none`.
pub mod Lits
pub mod Models
pub mod Blocking
pub mod Dimacs
mod Tests
use Prim.Native.Nat.{bit_or, bit_and, bit_xor}
use mettle.Base.{
  ℕ, ◌+◌, ◌*◌, ◌/◌, ◌%◌, ◌^◌, ◌-◌, Bool, true, false, Option, none, some, List, [], ◌∷◌, ◌++◌, map,
  length, get_elem?, ltb, ◌==◌, all, if◌then◌else◌,
}

-- Both are newtypes of `u32`.
abbrev pub Var : Type 0
Var = ℕ

abbrev pub Lit : Type 0
Lit = ℕ

-- `u32::MAX / 2`
abbrev pub max_vars : ℕ
max_vars = (2 ^ 32 - 1) / 2

-- A shift of a `u32` drops the bits above the word.
unfoldable pub positive : Var → Lit
positive v = v * 2 ^ 1 % 2 ^ 32

unfoldable pub negative : Var → Lit
negative v = bit_or (v * 2 ^ 1 % 2 ^ 32) 1

unfoldable pub var : Lit → Var
var l = l / 2 ^ 1

unfoldable pub is_positive : Lit → Bool
is_positive l = bit_and l 1 == 0

unfoldable pub lit_not : Lit → Lit
lit_not l = bit_xor l 1

pub record Cnf : Type 0 where
  pub num_vars : ℕ
  pub clauses : List (List Lit)

unfoldable pub new : Cnf
new = record { num_vars = 0; clauses = [] }

unfoldable pub fresh_var : Cnf → Option (record { var : Var; cnf : Cnf })
fresh_var c =
    if ltb c.num_vars max_vars
    then some (record { var = c.num_vars; cnf = record c { num_vars = c.num_vars + 1 } })
    else none

unfoldable pub add_clause : Cnf → List Lit → Option Cnf
add_clause c clause =
    if all clause (λ l. ltb (var l) c.num_vars)
    then some (record c { clauses = c.clauses ++ (clause ∷ []) })
    else none

-- The values of the minted variables, by index.
abbrev pub Assignment : Type 0
Assignment = List Bool

unfoldable pub value : Assignment → Var → Option Bool
value a v = get_elem? a v

-- One literal of a blocking clause.
unfoldable pub block_lit : Assignment → Var → Option Lit
unfolding value
block_lit a v = elim (value a v) [
  | none ↦ none
  | some true ↦ some (negative v)
  | some false ↦ some (positive v)
]

abbrev pub cons_option : Option Lit → Option (List Lit) → Option (List Lit)
cons_option (some l) (some ls) = some (l ∷ ls)
cons_option _ _ = none

unfoldable pub block : Assignment → List Var → Option (List Lit)
unfolding block_lit
block a [] = some []
block a (v ∷ vs) = cons_option (block_lit a v) (block a vs)
