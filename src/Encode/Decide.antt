-- ===== src/Encode/Decide.antt =====
-- crates/als-core/src/encode/mod.rs: the formulas over matrices. Comparisons, multiplicities and the
-- lexicographic order of symmetry breaking.
use mettle.Base.{true, List, [], ◌∷◌, ◌++◌, map}
use mettle.Circuit.{
  CircuitBool, const, M, pure, ◌>>=◌, bool_not, and, implies, iff, and_many, or_many,
}
use mettle.Bounds.{Tuple, insert_ordered}
use mettle.Matrix.{Matrix, get_cell}

unfoldable pub implies_each : Matrix → List (Tuple × CircuitBool) → M (List CircuitBool)
unfolding get_cell implies
implies_each b [] = pure []
implies_each b ((t, av) ∷ cells) = do
  imp ← implies av (get_cell b t)
  parts ← implies_each b cells
  pure (imp ∷ parts)

-- The tuples of both matrices, each once: `BTreeSet::insert`.
unfoldable pub insert_keys : List Tuple → List (Tuple × CircuitBool) → List Tuple
unfolding insert_ordered
insert_keys keys [] = keys
insert_keys keys ((t, v) ∷ cells) = insert_keys (insert_ordered t keys).1 cells

unfoldable pub iff_each : Matrix → Matrix → List Tuple → M (List CircuitBool)
unfolding get_cell iff
iff_each a b [] = pure []
iff_each a b (t ∷ keys) = do
  e ← iff (get_cell a t) (get_cell b t)
  parts ← iff_each a b keys
  pure (e ∷ parts)

pub data RelCmpOp : Type 0 where
  subset : RelCmpOp
  equal : RelCmpOp

unfoldable pub rel_compare : RelCmpOp → Matrix → Matrix → M CircuitBool
unfolding implies_each iff_each insert_keys and_many
rel_compare subset a b = do parts ← implies_each b a.cells; and_many parts
rel_compare equal a b = do
  parts ← iff_each a b (insert_keys (insert_keys [] a.cells) b.cells)
  and_many parts

-- One cell with each of those after it.
unfoldable pub not_both : CircuitBool → List CircuitBool → M (List CircuitBool)
unfolding and bool_not
not_both c [] = pure []
not_both c (d ∷ cells) = do both ← and c d; parts ← not_both c cells; pure (bool_not both ∷ parts)

unfoldable pub not_two : List CircuitBool → M (List CircuitBool)
unfolding not_both
not_two [] = pure []
not_two (c ∷ cells) = do row ← not_both c cells; parts ← not_two cells; pure (row ++ parts)

unfoldable pub at_most_one : List CircuitBool → M CircuitBool
unfolding not_two and_many
at_most_one cells = do parts ← not_two cells; and_many parts

pub data MultTest : Type 0 where
  no : MultTest
  some_ : MultTest
  lone : MultTest
  one : MultTest

unfoldable pub mult_test : MultTest → Matrix → M CircuitBool
unfolding at_most_one or_many and bool_not
mult_test no m = do v ← or_many (map (λ e. e.1) m.cells); pure (bool_not v)
mult_test some_ m = or_many (map (λ e. e.1) m.cells)
mult_test lone m = at_most_one (map (λ e. e.1) m.cells)
mult_test one m = do
  v ← or_many (map (λ e. e.1) m.cells)
  alone ← at_most_one (map (λ e. e.1) m.cells)
  and v alone

-- The clauses of the order, from the equality of what came before.
unfoldable pub lex_clauses :
    CircuitBool → List CircuitBool → List CircuitBool → M (List CircuitBool)
unfolding implies iff and
lex_clauses prev_eq [] ps = pure []
lex_clauses prev_eq (o ∷ os) [] = pure []
lex_clauses prev_eq (o ∷ os) (p ∷ ps) = do
  imp ← implies o p
  clause ← implies prev_eq imp
  e ← iff o p
  next ← and prev_eq e
  cmp ← lex_clauses next os ps
  pure (clause ∷ cmp)

unfoldable pub lex_leq : List CircuitBool → List CircuitBool → M CircuitBool
unfolding lex_clauses and_many
lex_leq original permuted = do cmp ← lex_clauses (const true) original permuted; and_many cmp
