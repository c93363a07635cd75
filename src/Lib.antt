-- ===== src/Lib.antt =====
-- mettle: the solving core of an Alloy 6 implementation, from CNF variables to integer circuits,
-- and tables of its front end: the types of the resolver and the precedences of the parser.
--
-- The repository's path of a specification is: crates/als-syntax parses it, crates/als-types
-- resolves it, crates/als-core lowers it to relational logic over bounds and encodes that as boolean
-- circuits over a CNF, and crates/als-solve hands the CNF to a SAT solver. A gate constructor of the
-- encoder mints a variable and adds clauses; integer operations are built of gates; the solving loop
-- adds a blocking clause for each instance it has shown.
--
-- Base: names of the library that the modules share, Boolean tests, lists and integers over the
-- native numbers.
--
-- Solve: crates/als-solve/src/lib.rs. `positive`, `negative`, `var`, `is_positive` and `lit_not`
-- are the methods of Lit, `fresh_var` and `add_clause` those of Cnf, and `block` is the function of
-- that name. Solve.Models says what a valuation satisfies. Solve.Dimacs: `dimacs_lit` of
-- crates/als-solve/src/dimacs.rs.
--
-- Circuit: crates/als-core/src/encode/circuit.rs. The record `Circuit` holds what `Circuit` of the
-- source borrows (the CNF, the effort meter and the gate cache); a method of `&mut Circuit` is a
-- function from a state to an optional result and state, and `none` is a panic. Circuit.Model says
-- when a state is well-formed and when one extends another, Circuit.Yields states contracts.
--
-- IntBuilder: crates/als-core/src/encode/int.rs, with the cardinality of
-- crates/als-core/src/encode/mod.rs and, for the shifts in IntBuilder.Shifts, `shift_mask_width` of
-- crates/als-core/src/overflow_guard.rs. The functions have the names of the methods and take the
-- builder's width first.
--
-- Bounds: crates/als-core/src/bounds.rs, the universe, tuple sets and bounds. Matrix:
-- crates/als-core/src/encode/matrix.rs, whose keys are the tuples of Bounds and whose cells are the
-- bits of Circuit.
--
-- Eval: the set algebra of crates/als-core/src/eval.rs, on the tuple sets of Bounds; `none` is a
-- failed assertion or an index out of range, and a turn of a loop is a panic, a `continue` or a tuple
-- to insert. Eval.Members, Eval.Joins and Eval.Override say which tuples are in the results.
--
-- Encode: the operators of crates/als-core/src/encode/mod.rs on the matrices of Matrix, which read
-- and write the circuit's state only; Encode.Decide has the comparisons, the multiplicities and the
-- order of symmetry breaking, Encode.Square the rounds of the closure and Encode.Rounds their
-- number. Encode.Matrices says when a matrix is one of minted bits in order, Encode.Loop what a loop
-- of `set` builds, and Encode.Sets what set a matrix holds under a valuation: the operators of Encode
-- are compared with those of Eval on these sets.
--
-- Enumerate: crates/als-core/src/solve.rs, the primary variables of the bounds, the decoding of an
-- assignment and `next` of the enumerator. The solver is the parameter `Solver`; the record `Lawful`
-- of Enumerate.Distinct says what the enumeration relies on of it.
--
-- Lasso: `LassoSelector::mint` of crates/als-core/src/temporal.rs and `recover_loop_state` of
-- crates/als-core/src/solve.rs.
--
-- World: the sigs of crates/als-types/src/world.rs and their descent. `descent_run` is the method
-- is_same_or_descendent with its panic and its endless walk, which `none` stands for; the function
-- `is_same_or_descendent` says whether it returns true, and the types read it through this test, so
-- what is said of a type operation is said of calls on which the method returns. World.Hierarchy
-- states the laws of the descent as the record that the modules of Ty take. Ty: crates/als-types/src/ty.rs, types as unions of
-- products of sigs.
--
-- Prec: crates/als-syntax/src/prec.rs, the binding powers and the binder budget; Prec.Tiers has the
-- levels of the precedence table in section 3 of docs/reference/alloy6-grammar.md.
--
-- Bounds and fuel: variables and literals are u32 in the source, and the shift of `positive` drops
-- what passes 32 bits; the pool has max_vars variables. The meter is a u64 and wraps (a release
-- build, in which the debug assertions are absent too). The integer of a constant is an i64, and its
-- shift takes the count modulo 64: above a width of 64 the bits of a constant repeat. The number of variables that an operation may
-- take is written in its contract, and the operation returns when the pool has that many left. Loops
-- run over lists or over the width; the walk up the parents of a sig has as much fuel as the arena
-- has sigs, the binary length of a number as much as the number, and that of the closure's bound 64,
-- the bits of a word. A BTreeMap or BTreeSet is a list in the order of its keys; the gate cache, which
-- is only read and extended by key, is a list in the order of insertion.
--
-- Not modelled: reading of files, printing and the command line; the SAT solvers; the parser and the
-- resolver; the encoder's and the evaluator's walks over expressions with their memo tables, their
-- quantifiers and their overflow guards; multiplication, division and the left shift of integer
-- circuits; the translation of a goal around the enumerator; the transitive closure of types.
pub mod Base
pub mod Solve
pub mod Circuit
pub mod IntBuilder
pub mod World
pub mod Ty
pub mod Bounds
pub mod Prec
pub mod Matrix
pub mod Eval
pub mod Encode
pub mod Enumerate
pub mod Lasso
