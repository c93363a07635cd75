-- ===== src/Matrix.antt =====
-- crates/als-core/src/encode/matrix.rs: sparse matrices of circuit bits, keyed by tuples. The
-- assertions on the arity are not part of a release build.
pub mod Cells
mod Tests
use mettle.Base.{ℕ, Bool, true, false, if◌then◌else◌, List, [], ◌∷◌, Option, none, some, length}
use mettle.Circuit.{CircuitBool, const, lit}
use mettle.Bounds.{Tuple, same, before}

-- The cells of the `BTreeMap`, in the order of the tuples.
pub record Matrix : Type 0 where
  pub arity : ℕ
  pub cells : List (Tuple × CircuitBool)

unfoldable pub empty_matrix : ℕ → Matrix
empty_matrix arity = record { arity = arity; cells = [] }

unfoldable pub find_cell : Tuple → List (Tuple × CircuitBool) → Option CircuitBool
unfolding same
find_cell t [] = none
find_cell t ((u, b) ∷ cells) = let rest = find_cell t cells in if same t u then some b else rest

unfoldable pub insert_cell :
    Tuple → CircuitBool → List (Tuple × CircuitBool) → List (Tuple × CircuitBool)
unfolding same before
insert_cell t v [] = (t, v) ∷ []
insert_cell t v ((u, b) ∷ cells) =
    let rest = insert_cell t v cells in
    if same t u
    then (t, v) ∷ cells
    else if before t u
    then (t, v) ∷ (u, b) ∷ cells
    else (u, b) ∷ rest

abbrev pub is_false : CircuitBool → Bool
is_false (const false) = true
is_false (const true) = false
is_false (lit l) = false

unfoldable pub set_cell : Matrix → Tuple → CircuitBool → Matrix
unfolding insert_cell
set_cell m t value = if is_false value then m else record m { cells = insert_cell t value m.cells }

abbrev pub or_false : Option CircuitBool → CircuitBool
or_false none = const false
or_false (some b) = b

unfoldable pub get_cell : Matrix → Tuple → CircuitBool
unfolding find_cell
get_cell m t = or_false (find_cell t m.cells)

abbrev pub is_stored : Option CircuitBool → Bool
is_stored none = false
is_stored (some b) = true

unfoldable pub contains_key : Matrix → Tuple → Bool
unfolding find_cell
contains_key m t = is_stored (find_cell t m.cells)

-- The matrix with the slot that the returned reference writes to.
unfoldable pub entry_or_false : Matrix → Tuple → Matrix
unfolding contains_key insert_cell
entry_or_false m t =
    if contains_key m t then m else record m { cells = insert_cell t (const false) m.cells }
