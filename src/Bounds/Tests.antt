-- ===== src/Bounds/Tests.antt =====
-- Tuple sets and tables at small inputs.
use mettle.Base.{◌⊎◌, ◌≡◌, ◌↔◌, refl, true, not, ◌||◌, [], ◌∷◌, none, some}
use mettle.Bounds.{
  Tuple, TupleSet, Bounds, same, before, insert_tuple, contains, bound_new, exact, bind, rebind,
  get_bound, universe_new,
}
use mettle.Bounds.Sets.{IsWellFormed, insert_tuple_checked, bound_new_iff}
use mettle.Bounds.Table.{Binds, bind_lem, rebind_lem}

abbrev pairs : TupleSet
pairs = record { arity = 2; tuples = (0 ∷ 1 ∷ []) ∷ (1 ∷ 0 ∷ []) ∷ [] }

abbrev one_pair : TupleSet
one_pair = record { arity = 2; tuples = (1 ∷ 0 ∷ []) ∷ [] }

pairs-IsWellFormed : IsWellFormed pairs
unfolding before
pairs-IsWellFormed = (((refl, tt), (tt, tt)), (refl, (refl, tt)))

insert_tuple_example :
    ((2 ≡ pairs.arity)
      × ((u : TupleSet) × (insert_tuple pairs (0 ∷ 0 ∷ [])
            ≡ some (not (contains pairs (0 ∷ 0 ∷ [])), u))
          × IsWellFormed u
          × ((x : Tuple) → contains u x ≡ (contains pairs x || same x (0 ∷ 0 ∷ [])))))
    ⊎ ((¬ (2 ≡ pairs.arity)) × (insert_tuple pairs (0 ∷ 0 ∷ []) ≡ none))
insert_tuple_example = insert_tuple_checked pairs (0 ∷ 0 ∷ []) pairs-IsWellFormed

wrong_arity : insert_tuple pairs (0 ∷ []) ≡ none
unfolding insert_tuple
wrong_arity = refl

duplicate_name : universe_new ((1 ∷ []) ∷ (1 ∷ []) ∷ []) ≡ none
unfolding universe_new
duplicate_name = refl

bound_new_example :
    (bound_new one_pair pairs ≡ some (record { lower = one_pair; upper = pairs })) ↔ (
      (one_pair.arity ≡ pairs.arity)
      × ((x : Tuple) → contains one_pair x ≡ true → contains pairs x ≡ true))
bound_new_example = bound_new_iff one_pair pairs

abbrev table : Bounds
table = record { universe = []; bounds = (3, record { lower = one_pair; upper = pairs }) ∷ [] }

bind_example :
    ((c : Bounds) × (bind table 1 (exact pairs) ≡ some c) × Binds table 1 (exact pairs) c)
    × (rebind table 1 (exact pairs) ≡ none)
unfolding get_bound
bind_example = bind_lem table 1 (exact pairs) refl

rebind_example :
    ((c : Bounds) × (rebind table 3 (exact pairs) ≡ some c) × Binds table 3 (exact pairs) c)
    × (bind table 3 (exact pairs) ≡ none)
unfolding get_bound
rebind_example = rebind_lem table 3 (record { lower = one_pair; upper = pairs }) (exact pairs) refl
