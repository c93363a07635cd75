-- ===== src/Ty.antt =====
-- crates/als-types/src/ty.rs: relational types as unions of products of prim sigs. The hierarchy is
-- that of the world; `none` of an optional arity is the source's `None`.
pub mod Covers
pub mod Meet
pub mod Reduced
pub mod Subtype
pub mod Join
pub mod Restrict
mod Tests
use mettle.Base.{
  ℕ, zero, suc, ◌+◌, ◌-◌, Bool, true, false, not, ◌&&◌, ◌||◌, if◌then◌else◌, ◌==◌, ltb, leb, List,
  [], ◌∷◌, ◌++◌, map, Option, none, some, length, take, drop, replicate, get_or, all, any, retain,
}
use mettle.World.{SigId, ResolvedWorld, is_same_or_descendent}

-- The struct has the one field of columns.
abbrev pub Product : Type 0
Product = List SigId

abbrev pub is_empty : ResolvedWorld → Product → Bool
is_empty w [] = true
is_empty w (c ∷ p) = c == w.builtins.none_sig

pub record RelType : Type 0 where
  pub is_bool : Bool
  pub is_small_int : Bool
  pub entries : List Product

unfoldable pub empty : RelType
empty = record { is_bool = false; is_small_int = false; entries = [] }

unfoldable pub formula : RelType
formula = record { is_bool = true; is_small_int = false; entries = [] }

unfoldable pub small_int : SigId → RelType
small_int int_sig = record { is_bool = false; is_small_int = true; entries = (int_sig ∷ []) ∷ [] }

unfoldable pub unary : SigId → RelType
unary sig = record { is_bool = false; is_small_int = false; entries = (sig ∷ []) ∷ [] }

unfoldable pub product_of : List SigId → RelType
product_of cols = record { is_bool = false; is_small_int = false; entries = cols ∷ [] }

abbrev pub no_entries : List Product → Bool
no_entries [] = true
no_entries (p ∷ ps) = false

unfoldable pub is_error : RelType → Bool
is_error t = not t.is_bool && (not t.is_small_int && no_entries t.entries)

unfoldable pub has_entries : RelType → Bool
has_entries t = not (no_entries t.entries)

unfoldable pub size : RelType → ℕ
size t = length t.entries

unfoldable pub has_tuple : ResolvedWorld → RelType → Bool
has_tuple w t = any t.entries (λ p. not (is_empty w p))

unfoldable pub has_no_tuple : ResolvedWorld → RelType → Bool
unfolding has_tuple
has_no_tuple w t = not (has_tuple w t)

unfoldable pub has_arity : RelType → ℕ → Bool
has_arity t k = ltb 0 k && any t.entries (λ p. length p == k)

-- The loop of `arity`, from the answer so far.
abbrev pub arity_loop : Option ℕ → List Product → Option ℕ
arity_loop none [] = some 0
arity_loop (some a) [] = some a
arity_loop none (p ∷ ps) = arity_loop (some (length p)) ps
arity_loop (some a) (p ∷ ps) =
    let rest = arity_loop (some a) ps in if a == length p then rest else none

unfoldable pub arity : RelType → Option ℕ
arity t = arity_loop none t.entries

unfoldable pub has_common_arity : RelType → RelType → Bool
has_common_arity t other = any t.entries (λ p. any other.entries (λ q. length p == length q))

abbrev pub is_int_product : ResolvedWorld → Product → Bool
is_int_product w (c ∷ []) = c == w.builtins.int
is_int_product w _ = false

unfoldable pub is_int : ResolvedWorld → RelType → Bool
is_int w t = any t.entries (λ p. is_int_product w p)

-- `zip` of the columns, with the test on each pair.
abbrev pub all_columns : (SigId → SigId → Bool) → Product → Product → Bool
all_columns f (a ∷ as_cols) (b ∷ bs) = f a b && all_columns f as_cols bs
all_columns f _ _ = true

unfoldable pub product_subtype : ResolvedWorld → Product → Product → Bool
product_subtype w sub sup =
    (length sub == length sup) && all_columns (λ a b. is_same_or_descendent w a b) sub sup

unfoldable pub add : ResolvedWorld → RelType → Product → RelType
unfolding product_subtype
add w t prod =
    if length prod == 0
    then t
    else if any t.entries (λ e. product_subtype w prod e)
    then t
    else record t {
      entries = retain (λ e. not (product_subtype w e prod)) t.entries ++ (prod ∷ []);
    }

-- The loop `for p in ps`, which adds `f p` and skips an entry where that is `none`.
abbrev pub add_option : ResolvedWorld → RelType → Option Product → RelType
add_option w out none = out
add_option w out (some p) = add w out p

unfoldable pub add_each :
    ResolvedWorld → (Product → Option Product) → RelType → List Product → RelType
unfolding add
add_each w f out [] = out
add_each w f out (p ∷ ps) = add_each w f (add_option w out (f p)) ps

-- The loop over the pairs of `ps` and `qs`.
unfoldable pub add_pairs :
    ResolvedWorld
    → (Product → Product → Option Product)
    → RelType
    → List Product
    → List Product
    → RelType
unfolding add_each
add_pairs w f out [] qs = out
add_pairs w f out (p ∷ ps) qs = add_pairs w f (add_each w (f p) out qs) ps qs

abbrev pub some_if : Bool → Product → Option Product
some_if true p = some p
some_if false p = none

unfoldable pub merge : ResolvedWorld → RelType → RelType → RelType
unfolding add_each
merge w t other =
    add_each w (λ p. some p)
      (record { is_bool = t.is_bool || other.is_bool; is_small_int = false; entries = t.entries })
      other.entries

unfoldable pub union : ResolvedWorld → RelType → RelType → RelType
unfolding add_each empty
union w t other = add_each w (λ p. some p) empty (t.entries ++ other.entries)

unfoldable pub union_with_common_arity : ResolvedWorld → RelType → RelType → RelType
unfolding add_each empty has_arity
union_with_common_arity w t other =
    add_each w (λ q. some_if (has_arity t (length q)) q)
      (add_each w (λ p. some_if (has_arity other (length p)) p) empty t.entries) other.entries

unfoldable pub pick_common_arity : ResolvedWorld → RelType → RelType → RelType
unfolding add_each empty has_arity
pick_common_arity w t other =
    add_each w (λ p. some_if (has_arity other (length p)) p) empty t.entries

unfoldable pub extract : ResolvedWorld → RelType → ℕ → RelType
unfolding add_each empty
extract w t k = add_each w (λ p. some_if (length p == k) p) empty t.entries

unfoldable pub col_meet : ResolvedWorld → SigId → SigId → SigId
col_meet w a b =
    if is_same_or_descendent w a b
    then a
    else if is_same_or_descendent w b a
    then b
    else w.builtins.none_sig

-- The columns of the meet; `none` is the early return at a disjoint pair.
abbrev pub push_col : ResolvedWorld → SigId → Option Product → Option Product
push_col w c none = none
push_col w c (some cols) = if c == w.builtins.none_sig then none else some (c ∷ cols)

unfoldable pub meet_loop : ResolvedWorld → Product → Product → Option Product
unfolding col_meet
meet_loop w (x ∷ a) (y ∷ b) = push_col w (col_meet w x y) (meet_loop w a b)
meet_loop w _ _ = some []

abbrev pub or_none_filled : ResolvedWorld → ℕ → Option Product → Product
or_none_filled w n none = replicate n w.builtins.none_sig
or_none_filled w n (some cols) = cols

unfoldable pub meet_columns : ResolvedWorld → Product → Product → Product
unfolding meet_loop
meet_columns w a b =
    if is_empty w a
    then a
    else if is_empty w b
    then b
    else or_none_filled w (length a) (meet_loop w a b)

unfoldable pub intersect : ResolvedWorld → RelType → RelType → RelType
unfolding add_pairs empty meet_columns
intersect w t other =
    add_pairs w (λ a b. some_if (length a == length b) (meet_columns w a b)) empty t.entries
      other.entries

unfoldable pub is_subtype_of : ResolvedWorld → RelType → RelType → Bool
unfolding product_subtype
is_subtype_of w t other =
    all (retain (λ p. not (is_empty w p)) t.entries)
      (λ p. any other.entries (λ q. product_subtype w p q))

unfoldable pub product_products : ResolvedWorld → Product → Product → Product
product_products w a b =
    if is_empty w a || is_empty w b
    then replicate (length a + length b) w.builtins.none_sig
    else a ++ b

unfoldable pub product : ResolvedWorld → RelType → RelType → RelType
unfolding add_pairs empty product_products
product w t other = add_pairs w (λ a b. some (product_products w a b)) empty t.entries other.entries

abbrev pub swap : Product → Option Product
swap (x ∷ y ∷ []) = some (y ∷ x ∷ [])
swap _ = none

unfoldable pub transpose : ResolvedWorld → RelType → RelType
unfolding add_each empty
transpose w t = add_each w swap empty t.entries

unfoldable pub remove_bool_and_int : RelType → SigId → RelType
unfolding unary
remove_bool_and_int t int_sig =
    if t.is_small_int && no_entries t.entries
    then unary int_sig
    else record { is_bool = false; is_small_int = false; entries = t.entries }

unfoldable pub as_set : RelType → SigId → RelType
unfolding remove_bool_and_int
as_set t int_sig = remove_bool_and_int t int_sig
