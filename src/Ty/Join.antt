-- ===== src/Ty/Join.antt =====
-- `join` of crates/als-types/src/ty.rs. A column of a product without columns is a panic.
pub mod Products
pub mod Composition
use mettle.Base.{
  ◌+◌, ◌-◌, ◌&&◌, ◌||◌, if◌then◌else◌, ◌==◌, ltb, leb, List, [], ◌∷◌, ◌++◌, Option, none, some,
  length, take, drop, replicate,
}
use mettle.World.{SigId, ResolvedWorld}
use mettle.Ty.{Product, RelType, col_meet, add, empty, no_entries}

abbrev pub last_column : Product → Option SigId
last_column [] = none
last_column (c ∷ []) = some c
last_column (c ∷ d ∷ p) = last_column (d ∷ p)

abbrev pub first_column : Product → Option SigId
first_column [] = none
first_column (c ∷ p) = some c

-- The product of the columns that do not touch.
unfoldable pub join_at :
    ResolvedWorld → Product → Product → Option SigId → Option SigId → Option Product
unfolding col_meet
join_at w a b (some x) (some y) =
    if col_meet w x y == w.builtins.none_sig
    then some (replicate (length a + length b - 2) w.builtins.none_sig)
    else some (take (length a - 1) a ++ drop 1 b)
join_at w a b _ _ = none

unfoldable pub join_products : ResolvedWorld → Product → Product → Option Product
unfolding join_at
join_products w a b =
    if leb (length a) 1 && leb (length b) 1
    then some []
    else join_at w a b (last_column a) (first_column b)

abbrev add_joined : ResolvedWorld → RelType → Option Product → Option RelType
add_joined w out none = none
add_joined w out (some p) = some (add w out p)

abbrev and_then : Option RelType → (RelType → Option RelType) → Option RelType
and_then none f = none
and_then (some t) f = f t

-- The inner loop, over the entries of the right type.
unfoldable pub join_row : ResolvedWorld → RelType → Product → List Product → Option RelType
unfolding join_products add
join_row w out a [] = some out
join_row w out a (b ∷ bs) =
    and_then
      (if ltb 1 (length a) || ltb 1 (length b)
        then add_joined w out (join_products w a b)
        else some out)
      (λ next. join_row w next a bs)

unfoldable pub join_rows : ResolvedWorld → RelType → List Product → List Product → Option RelType
unfolding join_row
join_rows w out [] bs = some out
join_rows w out (a ∷ as_left) bs =
    and_then (join_row w out a bs) (λ next. join_rows w next as_left bs)

unfoldable pub join : ResolvedWorld → RelType → RelType → Option RelType
unfolding join_rows empty
join w t other =
    if no_entries t.entries || no_entries other.entries
    then some empty
    else join_rows w empty t.entries other.entries
