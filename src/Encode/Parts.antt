-- ===== src/Encode/Parts.antt =====
-- The gates of a comparison, one for each cell or tuple.
use mettle.Base.{
  ℕ, ◌+◌, ◌*◌, ◌≤◌, ◌≡◌, refl, ap, ap₂, ◌∙◌, arith, Bool, true, false, not, beq, ◌&&◌, ◌||◌, ◌==◌,
  List, [], ◌∷◌, map, length, any, all, All, Bool-cases, inl, inr,
}
use mettle.Circuit
use mettle.Circuit.{CircuitBool}
use mettle.Circuit.Conjunction.{every}
use mettle.Circuit.Model.{
  Total, bit, bits, bool_value, IsMintedBool, IsMintedBool-mono, bind-Total, pure-Total, cost_le,
  self-Denotes, later,
}
use mettle.Circuit.Operations.{implies-Total, iff_Total, nil-Denotes, cons-Denotes}
use mettle.Bounds.{Tuple, TupleSet, same, before, insert_ordered, is_subset_of}
use mettle.Bounds.Sets.{same→eq, same_refl, insert_ordered-contains}
use mettle.Matrix.{Matrix, get_cell}
use mettle.Encode.Decide.{RelCmpOp, subset, equal, implies_each, iff_each, insert_keys}
use mettle.Encode.Matrices.{IsMatrix}
use mettle.Encode.Cells.{get_cell-IsMinted}

-- Equality of sets of tuples.
abbrev pub same_tuples : List Tuple → List Tuple → Bool
same_tuples [] [] = true
same_tuples [] (u ∷ us) = false
same_tuples (t ∷ ts) [] = false
same_tuples (t ∷ ts) (u ∷ us) = same t u && same_tuples ts us

-- The evaluator's comparison of two sets.
unfoldable pub rel_atom : RelCmpOp → TupleSet → TupleSet → Bool
unfolding is_subset_of
rel_atom subset a b = is_subset_of a b
rel_atom equal a b = (a.arity == b.arity) && same_tuples a.tuples b.tuples

pub same_tuples→eq : (ts us : List Tuple) → same_tuples ts us ≡ true → ts ≡ us
same_tuples→eq [] [] h = refl
same_tuples→eq [] (u ∷ us) h = absurd (cc h)
same_tuples→eq (t ∷ ts) [] h = absurd (cc h)
same_tuples→eq (t ∷ ts) (u ∷ us) h =
    ap₂ ◌∷◌ (same→eq t u (ground arith)) (same_tuples→eq ts us (ground arith))

pub same_tuples_refl : (ts : List Tuple) → same_tuples ts ts ≡ true
same_tuples_refl [] = refl
same_tuples_refl (t ∷ ts) = ground (arith, same_refl t, same_tuples_refl ts)

pub implies_each-Total :
    (r n : ℕ) (b : Matrix) (cells : List (Tuple × CircuitBool)) {s : Circuit.Circuit}
    → n ≤ s.cnf.num_vars
    → IsMatrix r n b
    → All (λ e. (length e.0 ≡ r) × IsMintedBool n e.1) cells
    → Total
        (bits (length cells))
        s
        (length cells)
        (implies_each b cells)
        (λ ρ. map (λ e. not (bool_value ρ e.1) || bool_value ρ (get_cell b e.0)) cells)
unfolding implies_each
implies_each-Total r n b [] g hb h = pure-Total nil-Denotes
implies_each-Total r n b (e ∷ cells) {s} g hb h = cost_le (omega arith) (
    bind-Total {j = 1} {k = length cells + 0}
      (implies-Total
        (self-Denotes {x = bit} {s = s} (IsMintedBool-mono n s.cnf.num_vars e.1 g h.0.1))
        (self-Denotes {x = bit} {s = s}
          (IsMintedBool-mono n s.cnf.num_vars (get_cell b e.0) g (get_cell-IsMinted r n b e.0 hb))))
      (λ imp t x d.
        bind-Total {j = length cells} {k = 0}
          (implies_each-Total r n b cells {s = t} (omega (arith, x.grows, g)) hb h.1)
          (λ parts u y ds. pure-Total (cons-Denotes (later y d) ds))))

pub iff_each-Total :
    (r n : ℕ) (a b : Matrix) (keys : List Tuple) {s : Circuit.Circuit}
    → n ≤ s.cnf.num_vars
    → IsMatrix r n a
    → IsMatrix r n b
    → Total
        (bits (length keys))
        s
        (3 * length keys)
        (iff_each a b keys)
        (λ ρ. map (λ t. beq (bool_value ρ (get_cell a t)) (bool_value ρ (get_cell b t))) keys)
unfolding iff_each
iff_each-Total r n a b [] g ha hb = cost_le (omega arith) (pure-Total nil-Denotes)
iff_each-Total r n a b (t ∷ keys) {s} g ha hb = cost_le (omega arith) (
    bind-Total {j = 3} {k = 3 * length keys + 0}
      (iff_Total (get_cell a t) (get_cell b t)
        (self-Denotes {x = bit} {s = s}
          (IsMintedBool-mono n s.cnf.num_vars (get_cell a t) g (get_cell-IsMinted r n a t ha)))
        (self-Denotes {x = bit} {s = s}
          (IsMintedBool-mono n s.cnf.num_vars (get_cell b t) g (get_cell-IsMinted r n b t hb))))
      (λ e u x d.
        bind-Total {j = 3 * length keys} {k = 0}
          (iff_each-Total r n a b keys {s = u} (omega (arith, x.grows, g)) ha hb)
          (λ parts v y ds. pure-Total (cons-Denotes (later y d) ds))))

pub every-map : {A : Type 0} (f : A → Bool) (xs : List A) → every (map f xs) ≡ all xs f
every-map f [] = refl
every-map f (x ∷ xs) = ap (λ c. f x && c) (every-map f xs)

insert_ordered-length :
    (t : Tuple) (us : List Tuple) → length (insert_ordered t us).1 ≤ 1 + length us
unfolding insert_ordered
insert_ordered-length t [] = omega arith
insert_ordered-length t (u ∷ us) = elim (Bool-cases (same t u)) [
  | inl e ↦ rw e (omega arith)
  | inr e ↦ elim (Bool-cases (before t u)) [
    | inl b ↦ rw (e, b) (omega arith)
    | inr b ↦ rw (e, b) (omega (arith, insert_ordered-length t us))
  ]
]

pub insert_keys-length :
    (keys : List Tuple) (cells : List (Tuple × CircuitBool))
    → length (insert_keys keys cells) ≤ length keys + length cells
unfolding insert_keys
insert_keys-length keys [] = omega arith
insert_keys-length keys (e ∷ cells) =
    omega
      (arith, insert_keys-length (insert_ordered e.0 keys).1 cells, insert_ordered-length e.0 keys)

pub insert_keys-contains :
    (x : Tuple) (keys : List Tuple) (cells : List (Tuple × CircuitBool))
    → any (insert_keys keys cells) (λ u. same x u)
      ≡ (any keys (λ u. same x u) || any cells (λ e. same x e.0))
unfolding insert_keys
insert_keys-contains x keys [] = ground arith
insert_keys-contains x keys (e ∷ cells) = ground (
  arith,
  insert_keys-contains x (insert_ordered e.0 keys).1 cells,
  insert_ordered-contains e.0 keys x,
)

pub all_at :
    (x : Tuple) (keys : List Tuple) (f : Tuple → Bool)
    → all keys f ≡ true
    → any keys (λ u. same x u) ≡ true
    → f x ≡ true
all_at x [] f h k = absurd (cc k)
all_at x (u ∷ keys) f h k = elim (Bool-cases (same x u)) [
  | inl e ↦ ap f (same→eq x u e) ∙ ground arith
  | inr e ↦ all_at x keys f (ground arith) (ground (arith, k, e))
]

pub all-true : {A : Type 0} (xs : List A) (f : A → Bool) → ((x : A) → f x ≡ true) → all xs f ≡ true
all-true [] f h = refl
all-true (x ∷ xs) f h = rw (h x) (all-true xs f h)

pub by_truth : (x y : Bool) → (x ≡ true → y ≡ true) → (y ≡ true → x ≡ true) → x ≡ y
by_truth x y f g = ground (arith, f, g)
