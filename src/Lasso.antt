-- ===== src/Lasso.antt =====
-- crates/als-core/src/temporal.rs: the selector of the state that a lasso trace loops back to; with
-- recover_loop_state of crates/als-core/src/solve.rs, which reads it off a model.
pub mod Selected
mod Tests
use mettle.Base.{ℕ, zero, suc, Bool, true, false, List, [], ◌∷◌, map, Option, none, some}
use mettle.Solve.{Var, Cnf, fresh_var, add_clause, positive, negative, Assignment, value}
use mettle.Eval.{and_then}

-- The struct has the one field of variables.
abbrev pub LassoSelector : Type 0
LassoSelector = List Var

abbrev pub with_var : Var → List Var × Cnf → Option (List Var × Cnf)
with_var v r = some (v ∷ r.0, r.1)

unfoldable pub mint_vars : ℕ → Cnf → Option (List Var × Cnf)
unfolding fresh_var
mint_vars zero cnf = some ([], cnf)
mint_vars (suc k) cnf =
    and_then (fresh_var cnf) (λ r. and_then (mint_vars k r.cnf) (λ q. with_var r.var q))

-- A variable with each of those after it.
unfoldable pub exclude_each : Var → List Var → Cnf → Option Cnf
unfolding add_clause negative
exclude_each v [] cnf = some cnf
exclude_each v (w ∷ ws) cnf =
    and_then (add_clause cnf (negative v ∷ negative w ∷ [])) (λ c. exclude_each v ws c)

unfoldable pub exclude_pairs : List Var → Cnf → Option Cnf
unfolding exclude_each
exclude_pairs [] cnf = some cnf
exclude_pairs (v ∷ vs) cnf = and_then (exclude_each v vs cnf) (λ c. exclude_pairs vs c)

abbrev pub constrain : List Var × Cnf → Option (LassoSelector × Cnf)
unfolding add_clause positive exclude_pairs
constrain r =
    and_then (add_clause r.1 (map positive r.0))
      (λ c. and_then (exclude_pairs r.0 c) (λ d. some (r.0, d)))

-- A trace of no states is a panic.
unfoldable pub mint : ℕ → Cnf → Option (LassoSelector × Cnf)
unfolding mint_vars constrain
mint zero cnf = none
mint (suc k) cnf = and_then (mint_vars (suc k) cnf) constrain

-- The state that is found, at the first true variable; a second one is a panic.
abbrev pub found_at : ℕ → Bool → Option ℕ → Option (Option ℕ)
found_at state false found = some found
found_at state true none = some (some state)
found_at state true (some l) = none

unfoldable pub scan_states : ℕ → Option ℕ → LassoSelector → Assignment → Option (Option ℕ)
unfolding value
scan_states state found [] a = some found
scan_states state found (v ∷ vs) a =
    and_then (value a v)
      (λ b. and_then (found_at state b found) (λ next. scan_states (suc state) next vs a))

-- No state found is a panic.
unfoldable pub recover_loop_state : LassoSelector → Assignment → Option ℕ
unfolding scan_states
recover_loop_state lasso a = and_then (scan_states 0 none lasso a) (λ found. found)
