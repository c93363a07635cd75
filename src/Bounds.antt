-- ===== src/Bounds.antt =====
-- crates/als-core/src/bounds.rs: the universe of atoms, tuple sets and relation bounds. A failed
-- assertion is `none`.
pub mod Sets
pub mod Table
mod Tests
use mettle.Base.{
  ℕ, zero, suc, ◌+◌, Bool, true, false, not, ◌&&◌, ◌||◌, if◌then◌else◌, ◌==◌, ltb, List, [], ◌∷◌,
  Option, none, some, length, get_elem?, all, any,
}

abbrev pub AtomId : Type 0
AtomId = ℕ

abbrev pub RelId : Type 0
RelId = ℕ

-- The bytes of a `String`.
abbrev pub Name : Type 0
Name = List ℕ

-- Equality and the lexicographic order of sequences of numbers, for names and for tuples.
unfoldable pub same : List ℕ → List ℕ → Bool
same [] [] = true
same [] (y ∷ ys) = false
same (x ∷ xs) [] = false
same (x ∷ xs) (y ∷ ys) = (x == y) && same xs ys

unfoldable pub before : List ℕ → List ℕ → Bool
before xs [] = false
before [] (y ∷ ys) = true
before (x ∷ xs) (y ∷ ys) = ltb x y || ((x == y) && before xs ys)

-- The struct has the one field of names.
abbrev pub Universe : Type 0
Universe = List Name

-- The number of distinct names is the number of names when no name comes again.
unfoldable pub all_distinct : List Name → Bool
unfolding same
all_distinct [] = true
all_distinct (n ∷ names) = not (any names (λ m. same n m)) && all_distinct names

unfoldable pub universe_new : List Name → Option Universe
unfolding all_distinct
universe_new names = if all_distinct names then some names else none

unfoldable pub name : Universe → AtomId → Option Name
name u atom = get_elem? u atom

-- The struct has the one field of atoms.
abbrev pub Tuple : Type 0
Tuple = List AtomId

unfoldable pub tuple_new : List AtomId → Option Tuple
tuple_new [] = none
tuple_new (a ∷ atoms) = some (a ∷ atoms)

-- The tuples of the `BTreeSet` in their order.
pub record TupleSet : Type 0 where
  pub arity : ℕ
  pub tuples : List Tuple

unfoldable pub empty_set : ℕ → Option TupleSet
empty_set zero = none
empty_set (suc n) = some (record { arity = suc n; tuples = [] })

-- `BTreeSet::insert`: whether the tuple is new, and the set after it.
abbrev pub after : Tuple → Bool × List Tuple → Bool × List Tuple
after u r = (r.0, u ∷ r.1)

unfoldable pub insert_ordered : Tuple → List Tuple → Bool × List Tuple
unfolding same before
insert_ordered t [] = (true, t ∷ [])
insert_ordered t (u ∷ us) =
    let rest = insert_ordered t us in
    if same t u then (false, u ∷ us) else if before t u then (true, t ∷ u ∷ us) else after u rest

unfoldable pub insert_tuple : TupleSet → Tuple → Option (Bool × TupleSet)
unfolding insert_ordered
insert_tuple s t =
    if length t == s.arity
    then some ((insert_ordered t s.tuples).0, record s { tuples = (insert_ordered t s.tuples).1 })
    else none

unfoldable pub contains : TupleSet → Tuple → Bool
unfolding same
contains s t = any s.tuples (λ u. same t u)

unfoldable pub is_subset_of : TupleSet → TupleSet → Bool
unfolding contains
is_subset_of s other = all s.tuples (λ t. contains other t)

pub record RelBound : Type 0 where
  pub lower : TupleSet
  pub upper : TupleSet

unfoldable pub bound_new : TupleSet → TupleSet → Option RelBound
unfolding is_subset_of
bound_new lower upper =
    if lower.arity == upper.arity
    then if is_subset_of lower upper then some (record { lower = lower; upper = upper }) else none
    else none

unfoldable pub exact : TupleSet → RelBound
exact tuples = record { lower = tuples; upper = tuples }

-- The bindings of the `BTreeMap`, in the order of the keys.
pub record Bounds : Type 0 where
  pub universe : Universe
  pub bounds : List (RelId × RelBound)

unfoldable pub bounds_new : Universe → Bounds
bounds_new u = record { universe = u; bounds = [] }

unfoldable pub lookup : RelId → List (RelId × RelBound) → Option RelBound
lookup rel [] = none
lookup rel ((r, b) ∷ bs) = let rest = lookup rel bs in if rel == r then some b else rest

unfoldable pub insert_bound : RelId → RelBound → List (RelId × RelBound) → List (RelId × RelBound)
insert_bound rel bound [] = (rel, bound) ∷ []
insert_bound rel bound ((r, b) ∷ bs) =
    let rest = insert_bound rel bound bs in
    if rel == r
    then (rel, bound) ∷ bs
    else if ltb rel r
    then (rel, bound) ∷ (r, b) ∷ bs
    else (r, b) ∷ rest

-- The binding that was there before says whether the assertion holds.
abbrev pub is_bound : Option RelBound → Bool
is_bound none = false
is_bound (some b) = true

unfoldable pub bind : Bounds → RelId → RelBound → Option Bounds
unfolding lookup insert_bound
bind b rel bound =
    if is_bound (lookup rel b.bounds)
    then none
    else some (record b { bounds = insert_bound rel bound b.bounds })

unfoldable pub rebind : Bounds → RelId → RelBound → Option Bounds
unfolding lookup insert_bound
rebind b rel bound =
    if is_bound (lookup rel b.bounds)
    then some (record b { bounds = insert_bound rel bound b.bounds })
    else none

unfoldable pub get_bound : Bounds → RelId → Option RelBound
unfolding lookup
get_bound b rel = lookup rel b.bounds
