-- ===== src/Enumerate.antt =====
-- crates/als-core/src/solve.rs: the primary variables of the bounds, the decoding of an assignment,
-- and the enumeration of instances over a solver. The self-check is not part of a release build.
pub mod Primaries
pub mod Distinct
pub mod Count
mod Tests
use mettle.Base.{
  ℕ, zero, suc, ◌+◌, ◌-◌, Bool, true, false, if◌then◌else◌, ◌==◌, ltb, leb, List, [], ◌∷◌, ◌++◌,
  map, Option, none, some, replicate,
}
use mettle.Solve.{Var, Lit, Cnf, fresh_var, Assignment, value, block}
use mettle.Bounds.{RelId, Tuple, TupleSet, RelBound, Universe, contains, insert_tuple}
use mettle.Eval.{and_then}

pub record RelDecode : Type 0 where
  pub rel : RelId
  pub arity : ℕ
  pub lower : TupleSet
  pub floating : List (Tuple × Var)

-- The bindings of the `BTreeMap`, in the order of the keys.
pub record Instance : Type 0 where
  pub universe : Universe
  pub rels : List (RelId × TupleSet)

abbrev pub with_primary : Tuple → Var → List (Tuple × Var) × Cnf → Option (List (Tuple × Var) × Cnf)
with_primary t v r = some ((t, v) ∷ r.0, r.1)

-- A primary variable for each tuple of the upper set that the lower set has not.
unfoldable pub float_tuples : TupleSet → List Tuple → Cnf → Option (List (Tuple × Var) × Cnf)
unfolding contains fresh_var
float_tuples lower [] cnf = some ([], cnf)
float_tuples lower (t ∷ ts) cnf =
    let skipped = float_tuples lower ts cnf in
    let floated =
      and_then (fresh_var cnf)
        (λ r. and_then (float_tuples lower ts r.cnf) (λ q. with_primary t r.var q)) in
    if contains lower t then skipped else floated

abbrev pub with_relation :
    RelId → RelBound → List (Tuple × Var) → List RelDecode × Cnf → Option (List RelDecode × Cnf)
with_relation rel bound floating r = some (
  record { rel = rel; arity = bound.upper.arity; lower = bound.lower; floating = floating } ∷ r.0,
  r.1,
)

-- The layout; the primary variables and the map from tuples to them are those of its entries.
unfoldable pub allocate_primaries : List (RelId × RelBound) → Cnf → Option (List RelDecode × Cnf)
unfolding float_tuples
allocate_primaries [] cnf = some ([], cnf)
allocate_primaries ((rel, bound) ∷ bounds) cnf =
    and_then (float_tuples bound.lower bound.upper.tuples cnf)
      (λ r. and_then (allocate_primaries bounds r.1) (λ q. with_relation rel bound r.0 q))

unfoldable pub primary_vars : List RelDecode → List Var
primary_vars [] = []
primary_vars (rd ∷ layout) = map (λ f. f.1) rd.floating ++ primary_vars layout

abbrev pub insert_if : Bool → TupleSet → Tuple → Option TupleSet
insert_if false ts t = some ts
insert_if true ts t = and_then (insert_tuple ts t) (λ r. some r.1)

-- The tuples whose variables are true, on top of the lower set.
unfoldable pub decode_relation : TupleSet → List (Tuple × Var) → Assignment → Option TupleSet
unfolding value insert_tuple
decode_relation ts [] a = some ts
decode_relation ts ((t, v) ∷ floating) a =
    and_then (value a v)
      (λ b. and_then (insert_if b ts t) (λ next. decode_relation next floating a))

unfoldable pub insert_relation :
    RelId → TupleSet → List (RelId × TupleSet) → List (RelId × TupleSet)
insert_relation rel ts [] = (rel, ts) ∷ []
insert_relation rel ts ((r, us) ∷ rels) =
    let rest = insert_relation rel ts rels in
    if rel == r
    then (rel, ts) ∷ rels
    else if ltb rel r
    then (rel, ts) ∷ (r, us) ∷ rels
    else (r, us) ∷ rest

unfoldable pub decode_all :
    List RelDecode → Assignment → List (RelId × TupleSet) → Option (List (RelId × TupleSet))
unfolding decode_relation insert_relation
decode_all [] a rels = some rels
decode_all (rd ∷ layout) a rels =
    and_then (decode_relation rd.lower rd.floating a)
      (λ ts. decode_all layout a (insert_relation rd.rel ts rels))

unfoldable pub decode : List RelDecode → Universe → Assignment → Option Instance
unfolding decode_all
decode layout universe a =
    and_then (decode_all layout a []) (λ rels. some (record { universe = universe; rels = rels }))

-- The number of variables that the layout reads.
unfoldable pub highest : List Var → ℕ
highest [] = 0
highest (v ∷ vs) = let rest = highest vs in if leb (suc v) rest then rest else suc v

unfoldable pub trivial_instance : List RelDecode → Universe → Option Instance
unfolding decode highest primary_vars
trivial_instance layout universe =
    decode layout universe (replicate (highest (primary_vars layout)) false)

pub data Outcome : Type 0 where
  sat : Assignment → Outcome
  unsat : Outcome

-- The solver is a parameter: a live solver over states `S`.
pub record Solver (S : Type 0) : Type 0 where
  pub solve : S → Outcome × S
  pub solve_within : S → ℕ → Option Outcome × S
  pub effort : S → Option ℕ
  pub add : S → List Lit → S

pub record Enumerator (S : Type 0) : Type 0 where
  pub solver : S
  pub primaries : List Var
  pub layout : List RelDecode
  pub universe : Universe
  pub done : Bool
  pub pending_trivial : Bool
  pub budget_remaining : Option ℕ
  pub exhausted : Bool

-- What the solver is asked for gives: a panic, the end of the budget, or an outcome.
pub data Asked (S : Type 0) : Type 0 where
  panic : Asked S
  stopped : Enumerator S → Asked S
  answered : Outcome → Enumerator S → Asked S

module _ {S : Type 0} (solver : Solver S) where
  abbrev pub stop : Enumerator S → Asked S
  stop e = stopped (record e { exhausted = true; done = true })

  -- The effort after the call is charged to the budget.
  abbrev pub charge : Enumerator S → ℕ → ℕ → Outcome → S → Option ℕ → Asked S
  charge e remaining start o s none = panic
  charge e remaining start o s (some now) =
      answered o (record e { solver = s; budget_remaining = some (remaining - (now - start)) })

  abbrev pub within : Enumerator S → ℕ → ℕ → Option Outcome × S → Asked S
  within e remaining start (none, s) = stop (record e { solver = s })
  within e remaining start (some o, s) = charge e remaining start o s (solver.effort s)

  abbrev pub budgeted : Enumerator S → ℕ → Option ℕ → Asked S
  budgeted e remaining none = panic
  budgeted e remaining (some start) =
      within e remaining start (solver.solve_within e.solver remaining)

  abbrev pub ask_with : Enumerator S → Option ℕ → Asked S
  ask_with e none =
      answered (solver.solve e.solver).0 (record e { solver = (solver.solve e.solver).1 })
  ask_with e (some zero) = stop e
  ask_with e (some (suc n)) = budgeted e (suc n) (solver.effort e.solver)

  unfoldable pub ask : Enumerator S → Asked S
  ask e = ask_with e e.budget_remaining

  abbrev pub blocked : Enumerator S → List Lit → Enumerator S
  blocked e [] = record e { done = true }
  blocked e (l ∷ c) = record e { solver = solver.add e.solver (l ∷ c) }

  unfoldable pub finish : Outcome → Enumerator S → Option (Option Instance × Enumerator S)
  unfolding decode block
  finish unsat e = some (none, record e { done = true })
  finish (sat a) e =
      and_then (decode e.layout e.universe a)
        (λ i. and_then (block a e.primaries) (λ c. some (some i, blocked e c)))

  abbrev pub proceed : Asked S → Option (Option Instance × Enumerator S)
  unfolding finish
  proceed panic = none
  proceed (stopped e) = some (none, e)
  proceed (answered o e) = finish o e

  abbrev pub trivial_first : Enumerator S → Option (Option Instance × Enumerator S)
  unfolding trivial_instance
  trivial_first e =
      and_then (trivial_instance e.layout e.universe)
        (λ i. some (some i, record e { pending_trivial = false }))

  unfoldable pub next : Enumerator S → Option (Option Instance × Enumerator S)
  unfolding ask proceed trivial_first
  next e =
      if e.done
      then some (none, e)
      else if e.pending_trivial
      then trivial_first e
      else proceed (ask e)
