-- ===== src/Lasso/Tests.antt =====
-- A selector of two states.
use mettle.Base.{◌≡◌, refl, arith, true, false, [], ◌∷◌, some, none}
use mettle.Solve.{Cnf, fresh_var, add_clause, positive, negative, var, is_positive, value}
use mettle.Solve.Models.{lit_value}
use mettle.Lasso.{mint, recover_loop_state}
use mettle.Lasso.Selected.{Recovers, recover_loop_state_lem}

abbrev empty_pool : Cnf
empty_pool = record { num_vars = 0; clauses = [] }

abbrev two_states : Cnf
two_states = record { num_vars = 2; clauses = (0 ∷ 2 ∷ []) ∷ (1 ∷ 3 ∷ []) ∷ [] }

two_minted : mint 2 empty_pool ≡ some (0 ∷ 1 ∷ [], two_states)
unfolding mint fresh_var add_clause positive negative var
two_minted = refl

both_set : recover_loop_state (0 ∷ 1 ∷ []) (true ∷ true ∷ []) ≡ none
unfolding recover_loop_state value
both_set = refl

recover_loop_state_example : Recovers 2 (false ∷ true ∷ []) (0 ∷ 1 ∷ [])
unfolding lit_value var is_positive
recover_loop_state_example =
    recover_loop_state_lem 2 empty_pool two_states (0 ∷ 1 ∷ []) (false ∷ true ∷ []) (omega arith)
      (omega arith) (omega arith) two_minted refl
