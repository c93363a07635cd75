-- ===== src/Ty/Tests.antt =====
-- Types over a small world, and the theorems on them.
use mettle.Base.{some, ◌≡◌, ◌↔◌, refl, arith, true, false, ◌&&◌, ◌||◌, [], ◌∷◌}
use mettle.World.{descent_run, is_same_or_descendent}
use mettle.World.Hierarchy.{hierarchy}
use mettle.World.Tests.{small, small-IsWellFormed}
use mettle.Ty.{
  Product, RelType, product_of, union, intersect, product, union_with_common_arity,
  pick_common_arity, transpose, is_subtype_of,
}
use mettle.Ty.Join.{join}
use mettle.Ty.Join.Products.{Composes}
use mettle.Ty.Join.Composition.{join-Composes}
use mettle.Ty.Covers.{covers, union-covers}
use mettle.Ty.Meet.{IsInhabited, intersect-covers}
use mettle.Ty.Reduced.{IsReduced, operations-IsReduced}
use mettle.Ty.Subtype.{is_subtype_of_iff}

-- Pairs of the sig 5, and pairs of its extension with any atom.
abbrev fives : RelType
fives = record { is_bool = false; is_small_int = false; entries = (5 ∷ 5 ∷ []) ∷ [] }

abbrev sixes : RelType
sixes = record { is_bool = false; is_small_int = false; entries = (6 ∷ 0 ∷ []) ∷ [] }

abbrev query : Product
query = 6 ∷ 6 ∷ []

query-IsInhabited : IsInhabited small query
query-IsInhabited = (omega arith, ((λ e. omega arith), ((λ e. omega arith), tt)))

meet_run : intersect small fives sixes ≡ product_of (6 ∷ 5 ∷ [])
unfolding intersect product_of is_same_or_descendent descent_run
meet_run = refl

union-covers_example :
    covers small (union small fives sixes) query
    ≡ (covers small fives query || covers small sixes query)
union-covers_example =
    union-covers small (hierarchy small small-IsWellFormed) fives sixes query (omega arith)

intersect-covers_example :
    covers small (intersect small fives sixes) query
    ≡ (covers small fives query && covers small sixes query)
intersect-covers_example =
    intersect-covers small (hierarchy small small-IsWellFormed) fives sixes query query-IsInhabited

operations-IsReduced_example :
    IsReduced small (union small fives sixes).entries
    × IsReduced small (intersect small fives sixes).entries
    × IsReduced small (product small fives sixes).entries
    × IsReduced small (union_with_common_arity small fives sixes).entries
    × IsReduced small (pick_common_arity small fives sixes).entries
    × IsReduced small (transpose small fives).entries
operations-IsReduced_example = operations-IsReduced small fives sixes

is_subtype_of_example : (is_subtype_of small fives sixes ≡ true) ↔ (
    (q : Product) → IsInhabited small q → covers small fives q ≡ true → covers small sixes q ≡ true)
is_subtype_of_example =
    is_subtype_of_iff small (hierarchy small small-IsWellFormed) fives sixes
      ((λ _. (omega arith, ((λ e. omega arith), ((λ e. omega arith), tt)))), tt)

join_example :
    (r : RelType) × (join small fives sixes ≡ some r)
    × IsReduced small r.entries
    × ((covers small r query ≡ true)
        ↔ Composes small (covers small fives) (covers small sixes) query)
join_example =
    join-Composes small fives sixes query small-IsWellFormed
      ((omega arith, (omega arith, (omega arith, tt))), tt)
      ((omega arith, (omega arith, (omega arith, tt))), tt) query-IsInhabited
