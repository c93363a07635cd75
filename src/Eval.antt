-- ===== src/Eval.antt =====
-- crates/als-core/src/eval.rs: the set algebra of the evaluator, on concrete tuple sets. A failed
-- assertion and an index out of range are `none`.
pub mod Loop
pub mod Members
pub mod Joins
pub mod Override
use mettle.Base.{
  ℕ, zero, suc, ◌+◌, ◌-◌, Bool, true, false, not, if◌then◌else◌, ◌==◌, List, [], ◌∷◌, ◌++◌, map,
  Option, none, some, length, take, drop, any,
}
use mettle.Bounds.{AtomId, Tuple, TupleSet, tuple_new, empty_set, insert_tuple, contains}

abbrev pub and_then : {A B : Type 0} → Option A → (A → Option B) → Option B
and_then none f = none
and_then (some a) f = f a

abbrev pub last_atom : Tuple → Option AtomId
last_atom [] = none
last_atom (a ∷ []) = some a
last_atom (a ∷ b ∷ t) = last_atom (b ∷ t)

abbrev pub first_atom : Tuple → Option AtomId
first_atom [] = none
first_atom (a ∷ t) = some a

-- What one turn of a loop inserts: nothing, at a `continue`, or a tuple.
abbrev pub Turn : Type 0
Turn = Option (Option Tuple)

abbrev pub checked : Option Tuple → Turn
checked none = none
checked (some t) = some (some t)

-- The tuple of a pair in a join.
abbrev pub joined_at : Tuple → Tuple → Option AtomId → Option AtomId → Turn
joined_at ta tb none _ = none
joined_at ta tb (some mid) none = none
joined_at ta tb (some mid) (some a) =
    if a == mid then checked (tuple_new (take (length ta - 1) ta ++ drop 1 tb)) else some none

unfoldable pub joined : Tuple → Tuple → Turn
unfolding tuple_new
joined ta tb = joined_at ta tb (last_atom ta) (first_atom tb)

unfoldable pub appended : Tuple → Tuple → Turn
unfolding tuple_new
appended ta tb = checked (tuple_new (ta ++ tb))

-- A tuple of fewer than two atoms is a panic.
abbrev pub reversed : Tuple → Option Tuple
reversed [] = none
reversed (a ∷ []) = none
reversed (a ∷ b ∷ t) = some (b ∷ a ∷ [])

unfoldable pub swapped : Tuple → Turn
swapped t = checked (reversed t)

abbrev pub insert_option : TupleSet → Option Tuple → Option TupleSet
insert_option out none = some out
insert_option out (some t) = and_then (insert_tuple out t) (λ r. some r.1)

-- The loop over the tuples of a set.
unfoldable pub insert_each : (Tuple → Turn) → TupleSet → List Tuple → Option TupleSet
unfolding insert_tuple
insert_each f out [] = some out
insert_each f out (t ∷ ts) =
    and_then (f t) (λ p. and_then (insert_option out p) (λ next. insert_each f next ts))

-- The loop over the pairs of two sets.
unfoldable pub insert_pairs :
    (Tuple → Tuple → Turn) → TupleSet → List Tuple → List Tuple → Option TupleSet
unfolding insert_each
insert_pairs f out [] bs = some out
insert_pairs f out (ta ∷ rest) bs =
    and_then (insert_each (f ta) out bs) (λ next. insert_pairs f next rest bs)

abbrev pub whole : Tuple → Turn
whole t = some (some t)

abbrev pub only_if : Bool → Tuple → Turn
only_if true t = some (some t)
only_if false t = some none

unfoldable pub union : TupleSet → TupleSet → Option TupleSet
unfolding empty_set insert_each
union a b = and_then (empty_set a.arity) (λ out. insert_each whole out (a.tuples ++ b.tuples))

unfoldable pub intersect : TupleSet → TupleSet → Option TupleSet
unfolding empty_set insert_each contains
intersect a b =
    and_then (empty_set a.arity) (λ out. insert_each (λ t. only_if (contains b t) t) out a.tuples)

unfoldable pub diff : TupleSet → TupleSet → Option TupleSet
unfolding empty_set insert_each contains
diff a b =
    and_then (empty_set a.arity)
      (λ out. insert_each (λ t. only_if (not (contains b t)) t) out a.tuples)

unfoldable pub product : TupleSet → TupleSet → Option TupleSet
unfolding empty_set insert_pairs appended
product a b =
    and_then (empty_set (a.arity + b.arity))
      (λ out. insert_pairs (λ ta tb. appended ta tb) out a.tuples b.tuples)

unfoldable pub join : TupleSet → TupleSet → Option TupleSet
unfolding empty_set insert_pairs joined
join a b =
    and_then (empty_set (a.arity + b.arity - 2))
      (λ out. insert_pairs (λ ta tb. joined ta tb) out a.tuples b.tuples)

-- The first atoms of the tuples of a set.
abbrev pub push_atom : Option AtomId → Option (List AtomId) → Option (List AtomId)
push_atom (some a) (some atoms) = some (a ∷ atoms)
push_atom _ _ = none

unfoldable pub domain : List Tuple → Option (List AtomId)
domain [] = some []
domain (t ∷ ts) = push_atom (first_atom t) (domain ts)

-- The tuple survives when its first atom is not in the domain.
abbrev pub unless_in : List AtomId → Tuple → Option AtomId → Turn
unless_in dom t none = none
unless_in dom t (some a) = only_if (not (any dom (λ x. x == a))) t

unfoldable pub override : TupleSet → TupleSet → Option TupleSet
unfolding empty_set insert_each domain
override a b = and_then (domain b.tuples) (λ dom. and_then (empty_set a.arity) (λ out.
    and_then (insert_each (λ t. unless_in dom t (first_atom t)) out a.tuples)
      (λ next. insert_each whole next b.tuples)))

unfoldable pub transpose : TupleSet → Option TupleSet
unfolding empty_set insert_each swapped
transpose a = and_then (empty_set 2) (λ out. insert_each (λ t. swapped t) out a.tuples)
