-- ===== src/Encode.antt =====
-- crates/als-core/src/encode/mod.rs: the relational operators of the encoder, on sparse matrices of
-- circuit bits. An operator reads and writes the circuit's state only, so it is a function of that;
-- a failed assertion and an index out of range are `none`.
pub mod Matrices
pub mod Loop
pub mod Cells
pub mod Building
pub mod Boolean
pub mod Sets
pub mod Products
pub mod Transposes
pub mod Groups
pub mod Joins
pub mod Starts
pub mod Merges
pub mod Overrides
pub mod Decide
pub mod Parts
pub mod Compares
pub mod Pairs
pub mod Multiplicities
pub mod Lexicographic
pub mod Square
pub mod Rounds
pub mod Refinement
mod Tests
use mettle.Base.{
  ℕ, zero, suc, ◌+◌, ◌-◌, ◌*◌, ◌%◌, ◌^◌, Bool, true, false, not, if◌then◌else◌, ◌==◌, ltb, leb, ◌/◌,
  List, [], ◌∷◌, ◌++◌, map, Option, none, some, length, retain, tabulate,
}
use mettle.Circuit
use mettle.Circuit.{
  CircuitBool, const, M, pure, ◌>>=◌, bool_not, and, or, ite, implies, iff, and_many, or_many,
}
use mettle.Bounds.{AtomId, Tuple, tuple_new, same, before, insert_ordered}
use mettle.Matrix.{
  Matrix, empty_matrix, set_cell, get_cell, contains_key, entry_or_false, insert_cell,
}
use mettle.Eval.{and_then, joined, reversed, first_atom}

-- A value that may be a panic.
abbrev pub lift : {A : Type 0} → Option A → M A
lift none s = none
lift (some a) s = some (a, s)

-- The loop of an operator: each turn computes a tuple and its cell, and sets it.
abbrev pub Item : Type 0
Item = M (Tuple × CircuitBool)

unfoldable pub set_each : List Item → Matrix → M Matrix
unfolding set_cell
set_each [] out = pure out
set_each (item ∷ items) out = do (t, v) ← item; set_each items (set_cell out t v)

-- The turn of a loop over cells that sets the same tuple to a gate's result.
abbrev pub same_tuple : (Tuple × CircuitBool → M CircuitBool) → Tuple × CircuitBool → Item
same_tuple f e = do v ← f e; pure (e.0, v)

unfoldable pub union : Matrix → Matrix → M Matrix
unfolding set_each get_cell contains_key empty_matrix or
union a b =
    set_each
      (map (same_tuple (λ e. or e.1 (get_cell b e.0))) a.cells
        ++ map (same_tuple (λ e. pure e.1)) (retain (λ e. not (contains_key a e.0)) b.cells))
      (empty_matrix a.arity)

unfoldable pub intersect : Matrix → Matrix → M Matrix
unfolding set_each get_cell contains_key empty_matrix and
intersect a b =
    set_each
      (map (same_tuple (λ e. and e.1 (get_cell b e.0))) (retain (λ e. contains_key b e.0) a.cells))
      (empty_matrix a.arity)

unfoldable pub diff : Matrix → Matrix → M Matrix
unfolding set_each get_cell empty_matrix and bool_not
diff a b =
    set_each (map (same_tuple (λ e. and e.1 (bool_not (get_cell b e.0)))) a.cells)
      (empty_matrix a.arity)

unfoldable pub rel_ite : CircuitBool → Matrix → Matrix → M Matrix
unfolding set_each get_cell contains_key empty_matrix ite
rel_ite c t e =
    set_each
      (map (same_tuple (λ x. ite c x.1 (get_cell e x.0))) t.cells
        ++ map (same_tuple (λ x. ite c (const false) x.1))
            (retain (λ x. not (contains_key t x.0)) e.cells))
      (empty_matrix t.arity)

-- The turn of a loop that sets a computed tuple.
abbrev pub tuple_item : Option Tuple → M CircuitBool → Item
tuple_item t m = do v ← m; u ← lift t; pure (u, v)

abbrev pub each_pair : {A B : Type 0} → (A → A → B) → List A → List A → List B
each_pair f [] bs = []
each_pair f (e ∷ es) bs = map (f e) bs ++ each_pair f es bs

unfoldable pub product : Matrix → Matrix → M Matrix
unfolding set_each empty_matrix and tuple_new
product a b =
    set_each (each_pair (λ e d. tuple_item (tuple_new (e.0 ++ d.0)) (and e.1 d.1)) a.cells b.cells)
      (empty_matrix (a.arity + b.arity))

-- The contributions to each tuple of a join, in the order of the tuples.
abbrev pub Groups : Type 0
Groups = List (Tuple × List (CircuitBool × CircuitBool))

unfoldable pub add_pair : Tuple → CircuitBool × CircuitBool → Groups → Groups
unfolding same before
add_pair t p [] = (t, p ∷ []) ∷ []
add_pair t p ((u, ps) ∷ groups) =
    let rest = add_pair t p groups in
    if same t u
    then (u, ps ++ (p ∷ [])) ∷ groups
    else if before t u
    then (t, p ∷ []) ∷ (u, ps) ∷ groups
    else (u, ps) ∷ rest

abbrev pub contribute : Option Tuple → CircuitBool × CircuitBool → Groups → Groups
contribute none p groups = groups
contribute (some t) p groups = add_pair t p groups

-- The loop over the cells of the second matrix, in that over the cells of the first.
unfoldable pub group_row : Tuple × CircuitBool → List (Tuple × CircuitBool) → Groups → Option Groups
unfolding joined add_pair
group_row e [] groups = some groups
group_row e (d ∷ ds) groups =
    and_then (joined e.0 d.0) (λ t. group_row e ds (contribute t (e.1, d.1) groups))

unfoldable pub group_pairs :
    List (Tuple × CircuitBool) → List (Tuple × CircuitBool) → Groups → Option Groups
unfolding group_row
group_pairs [] ds groups = some groups
group_pairs (e ∷ es) ds groups = and_then (group_row e ds groups) (λ next. group_pairs es ds next)

unfoldable pub and_each : List (CircuitBool × CircuitBool) → M (List CircuitBool)
unfolding and
and_each [] = pure []
and_each ((x, y) ∷ pairs) = do term ← and x y; terms ← and_each pairs; pure (term ∷ terms)

abbrev pub group_item : Tuple × List (CircuitBool × CircuitBool) → Item
group_item g = do terms ← and_each g.1; v ← or_many terms; pure (g.0, v)

-- The scan of the pairs is metered: `ops` is a `u64`, and the product saturates.
unfoldable pub meter_scan : ℕ → M Unit
meter_scan n s =
    some (tt, record s { ops = (s.ops + (if leb n (2 ^ 64 - 1) then n else 2 ^ 64 - 1)) % 2 ^ 64 })

unfoldable pub join : Matrix → Matrix → M Matrix
unfolding set_each empty_matrix group_pairs and_each or_many meter_scan
join a b = do
  _ ← meter_scan (length a.cells * length b.cells)
  groups ← lift (group_pairs a.cells b.cells [])
  set_each (map group_item groups) (empty_matrix (a.arity + b.arity - 2))

-- The cells of `b` by first atom.
unfoldable pub add_term :
    AtomId → CircuitBool → List (AtomId × List CircuitBool) → List (AtomId × List CircuitBool)
add_term x v [] = (x, v ∷ []) ∷ []
add_term x v ((y, vs) ∷ dom) =
    let rest = add_term x v dom in
    if x == y
    then (y, vs ++ (v ∷ [])) ∷ dom
    else if ltb x y
    then (x, v ∷ []) ∷ (y, vs) ∷ dom
    else (y, vs) ∷ rest

unfoldable pub group_starts :
    List (Tuple × CircuitBool)
    → List (AtomId × List CircuitBool)
    → Option (List (AtomId × List CircuitBool))
unfolding add_term
group_starts [] dom = some dom
group_starts ((t, v) ∷ cells) dom =
    and_then (first_atom t) (λ x. group_starts cells (add_term x v dom))

unfoldable pub or_each : List (AtomId × List CircuitBool) → M (List (AtomId × CircuitBool))
unfolding or_many
or_each [] = pure []
or_each ((x, terms) ∷ dom) = do v ← or_many terms; rest ← or_each dom; pure ((x, v) ∷ rest)

-- `get(..).copied().unwrap_or(FALSE)`
unfoldable pub in_dom : AtomId → List (AtomId × CircuitBool) → CircuitBool
in_dom x [] = const false
in_dom x ((y, v) ∷ dom) = let rest = in_dom x dom in if x == y then v else rest

abbrev pub survivor : List (AtomId × CircuitBool) → Tuple × CircuitBool → Item
survivor dom e = do x ← lift (first_atom e.0); v ← and e.1 (bool_not (in_dom x dom)); pure (e.0, v)

-- The slot of a tuple, then the gate, then the write.
unfoldable pub merge_cell : Matrix → Tuple → CircuitBool → Matrix
unfolding entry_or_false insert_cell
merge_cell out t v =
    let slot = entry_or_false out t in record slot { cells = insert_cell t v slot.cells }

unfoldable pub merge_each : List (Tuple × CircuitBool) → Matrix → M Matrix
unfolding merge_cell entry_or_false get_cell or
merge_each [] out = pure out
merge_each ((t, v) ∷ cells) out = do
  merged ← or (get_cell (entry_or_false out t) t) v
  merge_each cells (merge_cell (entry_or_false out t) t merged)

unfoldable pub override_ : Matrix → Matrix → M Matrix
unfolding set_each merge_each empty_matrix group_starts or_each in_dom and bool_not
override_ a b = do
  groups ← lift (group_starts b.cells [])
  dom ← or_each groups
  out ← set_each (map (survivor dom) a.cells) (empty_matrix a.arity)
  merge_each b.cells out

unfoldable pub transpose : Matrix → M Matrix
unfolding set_each empty_matrix
transpose a = set_each (map (λ e. tuple_item (reversed e.0) (pure e.1)) a.cells) (empty_matrix 2)

pub data RelConst : Type 0 where
  none_const : RelConst
  univ : RelConst
  iden : RelConst

-- The atoms are the numbers below the length of the universe.
unfoldable pub const_matrix : ℕ → RelConst → M Matrix
unfolding set_each empty_matrix
const_matrix universe_len none_const = pure (empty_matrix 1)
const_matrix universe_len univ =
    set_each (map pure (tabulate universe_len (λ i. (i ∷ [], const true)))) (empty_matrix 1)
const_matrix universe_len iden =
    set_each (map pure (tabulate universe_len (λ i. (i ∷ i ∷ [], const true)))) (empty_matrix 2)
