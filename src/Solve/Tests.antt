-- ===== src/Solve/Tests.antt =====
-- Runs of literals and blocking clauses, and their theorems at small inputs.
use mettle.Base.{◌≡◌, refl, arith, true, false, List, [], ◌∷◌, some, none, any}
use mettle.Solve.{Lit, positive, negative, var, is_positive, lit_not, block, add_clause, new}
use mettle.Solve.Models.{Valuation, sat_clause}
use mettle.Base.Int.{negsuc}
use mettle.Solve.Dimacs.{dimacs_lit}
use mettle.Solve.Lits.{literals_lem}
use mettle.Solve.Blocking.{block_lem, differs}

literals_lem_example :
    (var (positive 3) ≡ 3)
    × (var (negative 3) ≡ 3)
    × (is_positive (positive 3) ≡ true)
    × (is_positive (negative 3) ≡ false)
    × (lit_not (positive 3) ≡ negative 3)
    × (lit_not (negative 3) ≡ positive 3)
literals_lem_example = literals_lem 3 (omega arith)

block_run : block (true ∷ false ∷ true ∷ []) (0 ∷ 1 ∷ []) ≡ some (1 ∷ 2 ∷ [])
unfolding block negative positive
block_run = refl

block_out_of_range : block (true ∷ []) (1 ∷ []) ≡ none
unfolding block
block_out_of_range = refl

foreign_variable : add_clause new (0 ∷ []) ≡ none
unfolding add_clause new var
foreign_variable = refl

block_lem_example :
    (c : List Lit) × (block (true ∷ false ∷ true ∷ []) (0 ∷ 1 ∷ []) ≡ some c)
    × ((ρ : Valuation) → sat_clause ρ c ≡ any (0 ∷ 1 ∷ []) (differs ρ (true ∷ false ∷ true ∷ [])))
block_lem_example =
    block_lem (true ∷ false ∷ true ∷ []) (0 ∷ 1 ∷ []) (omega arith) (omega arith, (omega arith, tt))

negative_of_two : dimacs_lit 5 ≡ some (negsuc 2)
unfolding dimacs_lit var is_positive
negative_of_two = refl
