-- ===== src/Ty/Restrict.antt =====
-- The restrictions of crates/als-types/src/ty.rs, and its test for a common tuple.
use mettle.Base.{
  ℕ, zero, suc, ◌-◌, Bool, true, false, not, ◌&&◌, ◌||◌, if◌then◌else◌, ◌==◌, leb, [], ◌∷◌, Option,
  none, some, length, any, replicate, get_or,
}
use mettle.World.{SigId, ResolvedWorld, is_same_or_descendent}
use mettle.Ty.Reduced.{IsReduced, add_pairs-IsReduced}
use mettle.Ty.{
  Product, RelType, is_empty, no_entries, has_arity, all_columns, col_meet, add_pairs, empty,
}

unfoldable col_intersects : ResolvedWorld → SigId → SigId → Bool
col_intersects w a b =
    if is_same_or_descendent w a b
    then not (a == w.builtins.none_sig)
    else if is_same_or_descendent w b a
    then not (b == w.builtins.none_sig)
    else false

unfoldable products_intersect : ResolvedWorld → Product → Product → Bool
unfolding col_intersects
products_intersect w a b = all_columns (λ x y. col_intersects w x y) a b

unfoldable intersects : ResolvedWorld → RelType → RelType → Bool
unfolding products_intersect
intersects w t other = any t.entries (λ pa.
    not (is_empty w pa)
    && any other.entries
        (λ pb. (length pa == length pb) && (not (is_empty w pb) && products_intersect w pa pb)))

abbrev set_at : ℕ → SigId → Product → Product
set_at i c [] = []
set_at zero c (x ∷ p) = c ∷ p
set_at (suc i) c (x ∷ p) = x ∷ set_at i c p

unfoldable column_restrict : ResolvedWorld → Product → SigId → ℕ → Product
unfolding col_meet
column_restrict w a b idx =
    if is_empty w a || leb (length a) idx
    then a
    else let c = col_meet w (get_or a idx 0) b in
      if c == w.builtins.none_sig then replicate (length a) w.builtins.none_sig else set_at idx c a

-- The pairs of an entry of the unary type and an entry of the restricted one.
abbrev restrict_by : ResolvedWorld → (Product → ℕ) → Product → Product → Option Product
restrict_by w column (b ∷ []) a = some (column_restrict w a b (column a))
restrict_by w column _ a = none

unfoldable domain_restrict : ResolvedWorld → RelType → RelType → RelType
unfolding add_pairs empty has_arity column_restrict
domain_restrict w t dom =
    if no_entries t.entries || not (has_arity dom 1)
    then empty
    else add_pairs w (restrict_by w (λ a. 0)) empty dom.entries t.entries

unfoldable range_restrict : ResolvedWorld → RelType → RelType → RelType
unfolding add_pairs empty has_arity column_restrict
range_restrict w t ran =
    if no_entries t.entries || not (has_arity ran 1)
    then empty
    else add_pairs w (restrict_by w (λ a. length a - 1)) empty ran.entries t.entries

-- What a restriction adds is reduced, whatever its operands.
restrictions-IsReduced :
    (w : ResolvedWorld) (t u : RelType)
    → IsReduced w (domain_restrict w t u).entries × IsReduced w (range_restrict w t u).entries
unfolding domain_restrict range_restrict empty
restrictions-IsReduced w t u = (
  by_guard (λ a. 0) (no_entries t.entries || not (has_arity u 1)),
  by_guard (λ a. length a - 1) (no_entries t.entries || not (has_arity u 1)),
)
  where
    by_guard :
        (column : Product → ℕ) (c : Bool)
        → IsReduced w
            (if c
              then empty
              else add_pairs w (restrict_by w column) empty u.entries t.entries).entries
    by_guard column true = tt
    by_guard column false =
        add_pairs-IsReduced w (restrict_by w column) empty u.entries t.entries tt
