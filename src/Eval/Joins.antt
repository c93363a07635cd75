-- ===== src/Eval/Joins.antt =====
-- The join, the override and the transpose of sets.
use mettle.Base.{
  ℕ, zero, suc, ◌+◌, ◌-◌, ◌<◌, ◌≡◌, refl, sym, ap, subst, ◌∙◌, arith, Bool, true, false, ◌==◌,
  if◌then◌else◌, [], ◌∷◌, ◌++◌, Option, none, some, length, length-append, take, drop, any, All-map,
}
use mettle.Bounds.{AtomId, Tuple, TupleSet, tuple_new}
use mettle.Eval.{
  checked, last_atom, first_atom, joined, swapped, insert_each, only_if, join, transpose,
}
use mettle.Eval.Loop.{inserts, IsTurn, insert_each_lem}
use mettle.Eval.Members.{IsRelation, Returns, from_empty, pairs_lem, only_if-IsTurn}

length-take : (t : Tuple) (n m : ℕ) → length t ≡ n + m → length (take n t) ≡ n
length-take t zero m h = refl
length-take [] (suc n) m h = absurd (omega arith)
length-take (a ∷ t) (suc n) m h = ap suc (length-take t n m (omega arith))

last_some : (a : AtomId) (t : Tuple) → (b : AtomId) × (last_atom (a ∷ t) ≡ some b)
last_some a [] = (a, refl)
last_some a (b ∷ t) = last_some b t

-- Whether the last atom of a tuple is the first of another.
abbrev meets_at : Option AtomId → Option AtomId → Bool
meets_at none _ = false
meets_at (some a) none = false
meets_at (some a) (some b) = b == a

unfoldable pub meets : Tuple → Tuple → Bool
meets t u = meets_at (last_atom t) (first_atom u)

-- A tuple without its last atom and one without its first.
unfoldable pub outer : Tuple → Tuple → Tuple
outer t u = take (length t - 1) t ++ drop 1 u

length-outer :
    (t u : Tuple) → 0 < length t → 0 < length u → length (outer t u) ≡ length t + length u - 2
unfolding outer
length-outer t [] h k = absurd (omega arith)
length-outer t (b ∷ u) h k =
    omega
      (arith, length-append (take (length t - 1) t) u, length-take t (length t - 1) 1 (omega arith))

new_some : (t : Tuple) → 0 < length t → tuple_new t ≡ some t
unfolding tuple_new
new_some [] h = absurd (omega arith)
new_some (a ∷ t) h = refl

joined_lem :
    (t u : Tuple)
    → 0 < length t
    → 0 < length u
    → 2 < length t + length u
    → joined t u ≡ only_if (meets t u) (outer t u)
unfolding joined meets outer
joined_lem [] u h k l = absurd (omega arith)
joined_lem (a ∷ t) [] h k l = absurd (omega arith)
joined_lem (a ∷ t) (b ∷ u) h k l =
    let (c, e) = last_some a t in
    let f : tuple_new (outer (a ∷ t) (b ∷ u)) ≡ some (outer (a ∷ t) (b ∷ u)) =
      new_some (outer (a ∷ t) (b ∷ u)) (omega (arith, length-outer (a ∷ t) (b ∷ u) h k)) in
    rw e (by_case (b == c) f)
  where
    by_case :
        (x : Bool) {o : Tuple} {p : Option Tuple}
        → p ≡ some o
        → (if x then checked p else some none) ≡ only_if x o
    by_case true f = ap checked f
    by_case false f = refl

pub joined-IsTurn :
    (i j : ℕ) (t u : Tuple)
    → 0 < i
    → 0 < j
    → 2 < i + j
    → length t ≡ i
    → length u ≡ j
    → IsTurn (i + j - 2) (joined t u)
joined-IsTurn i j t u p q k l m =
    let h : 0 < length t = omega arith in
    let g : 0 < length u = omega arith in
    rw (joined_lem t u h g (omega arith))
      (only_if-IsTurn (i + j - 2) (meets t u) (outer t u) (omega (arith, length-outer t u h g)))

pub join_lem :
    (a b : TupleSet)
    → IsRelation a
    → IsRelation b
    → 2 < a.arity + b.arity
    → Returns
        (join a b)
        (a.arity + b.arity - 2)
        (λ x. any a.tuples (λ t. any b.tuples (λ u. inserts (joined t u) x)))
unfolding join
join_lem a b ha hb p =
    pairs_lem a b ha (a.arity + b.arity - 2) (λ t u. joined t u) (omega arith) hb
      (λ t u l m. joined-IsTurn a.arity b.arity t u ha.0 hb.0 p l m)

swapped-IsTurn : (t : Tuple) → length t ≡ 2 → IsTurn 2 (swapped t)
unfolding swapped
swapped-IsTurn [] h = absurd (omega arith)
swapped-IsTurn (a ∷ []) h = absurd (omega arith)
swapped-IsTurn (a ∷ b ∷ t) h = refl

pub transpose_lem :
    (a : TupleSet)
    → IsRelation a
    → a.arity ≡ 2
    → Returns (transpose a) 2 (λ x. any a.tuples (λ t. inserts (swapped t) x))
unfolding transpose
transpose_lem a ha e =
    from_empty 2 (λ out. insert_each (λ t. swapped t) out a.tuples)
      (λ x. any a.tuples (λ t. inserts (swapped t) x)) (omega arith)
      (λ out v f.
        insert_each_lem (λ t. swapped t) out a.tuples v
          (All-map (λ t. length t ≡ a.arity) (λ t. IsTurn out.arity (swapped t)) a.tuples
            (λ t l. subst (λ i. IsTurn i (swapped t)) (sym f) (swapped-IsTurn t (l ∙ e))) ha.1.1))
