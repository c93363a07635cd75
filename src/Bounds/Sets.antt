-- ===== src/Bounds/Sets.antt =====
-- Tuple sets are ordered without repetitions, and a bound's lower set is in its upper one.
use mettle.Base.{
  ◌⊎◌, none, ◌==◌, ℕ, ◌≡◌, refl, sym, ap, ap₂, arith, Bool, true, false, not, Bool-cases, ◌||◌,
  ==_iff, List, [], ◌∷◌, some, length, any, all, All, ◌↔◌, inl, inr,
}
use mettle.Bounds.{
  Tuple, TupleSet, same, before, insert_ordered, insert_tuple, contains, is_subset_of, bound_new,
}

pub same→eq : (xs ys : List ℕ) → same xs ys ≡ true → xs ≡ ys
unfolding same
same→eq [] [] h = refl
same→eq [] (y ∷ ys) h = absurd (cc h)
same→eq (x ∷ xs) [] h = absurd (cc h)
same→eq (x ∷ xs) (y ∷ ys) h = ap₂ ◌∷◌ (ground arith) (same→eq xs ys (ground arith))

pub same_refl : (xs : List ℕ) → same xs xs ≡ true
unfolding same
same_refl [] = refl
same_refl (x ∷ xs) = ground (arith, same_refl xs)

pub same_comm : (xs ys : List ℕ) → same xs ys ≡ same ys xs
unfolding same
same_comm [] [] = refl
same_comm [] (y ∷ ys) = refl
same_comm (x ∷ xs) [] = refl
same_comm (x ∷ xs) (y ∷ ys) = ground (arith, same_comm xs ys)

before_trans : (xs ys zs : List ℕ) → before xs ys ≡ true → before ys zs ≡ true → before xs zs ≡ true
unfolding before
before_trans xs [] zs h k = absurd (cc h)
before_trans xs (y ∷ ys) [] h k = absurd (cc k)
before_trans [] (y ∷ ys) (z ∷ zs) h k = refl
before_trans (x ∷ xs) (y ∷ ys) (z ∷ zs) h k = ground (arith, before_trans xs ys zs)

pub before_apart : (xs ys : List ℕ) → before xs ys ≡ true → same xs ys ≡ false
unfolding before same
before_apart xs [] h = absurd (cc h)
before_apart [] (y ∷ ys) h = refl
before_apart (x ∷ xs) (y ∷ ys) h = ground (arith, before_apart xs ys)

pub before_total :
    (xs ys : List ℕ) → same xs ys ≡ false → before xs ys ≡ false → before ys xs ≡ true
unfolding before same
before_total [] [] h k = absurd (cc h)
before_total [] (y ∷ ys) h k = absurd (cc k)
before_total (x ∷ xs) [] h k = refl
before_total (x ∷ xs) (y ∷ ys) h k = ground (arith, before_total xs ys)

-- Strictly ascending.
abbrev pub IsOrdered : List Tuple → Type 0
IsOrdered [] = Unit
IsOrdered (t ∷ ts) = All (λ u. before t u ≡ true) ts × IsOrdered ts

-- Of one arity, in order.
abbrev pub IsWellFormed : TupleSet → Type 0
IsWellFormed s = IsOrdered s.tuples × All (λ t. length t ≡ s.arity) s.tuples

-- What is before a tuple is before all that follow it.
pub later_before :
    (t u : Tuple) (us : List Tuple)
    → before t u ≡ true
    → All (λ v. before u v ≡ true) us
    → All (λ v. before t v ≡ true) us
later_before t u [] b h = tt
later_before t u (v ∷ us) b h = (before_trans t u v b h.0, later_before t u us b h.1)

pub none_same :
    (t : Tuple) (us : List Tuple) → All (λ v. before t v ≡ true) us → any us (λ v. same t v) ≡ false
none_same t [] h = refl
none_same t (v ∷ us) h = rw (before_apart t v h.0) (none_same t us h.1)

pub insert_ordered-contains :
    (t : Tuple) (us : List Tuple) (x : Tuple)
    → any (insert_ordered t us).1 (λ u. same x u) ≡ (any us (λ u. same x u) || same x t)
unfolding insert_ordered
insert_ordered-contains t [] x = ground arith
insert_ordered-contains t (u ∷ us) x = elim (Bool-cases (same t u)) [
  | inl e ↦ rw e (ground (arith, ap (same x) (same→eq t u e)))
  | inr e ↦ elim (Bool-cases (before t u)) [
    | inl b ↦ rw (e, b) (ground arith)
    | inr b ↦ rw (e, b) (ground (arith, insert_ordered-contains t us x))
  ]
]

insert_ordered-new :
    (t : Tuple) (us : List Tuple)
    → IsOrdered us
    → (insert_ordered t us).0 ≡ not (any us (λ u. same t u))
unfolding insert_ordered
insert_ordered-new t [] o = refl
insert_ordered-new t (u ∷ us) o = elim (Bool-cases (same t u)) [
  | inl e ↦ rw e refl
  | inr e ↦ elim (Bool-cases (before t u)) [
    | inl b ↦ rw (e, b) (ap not (sym (none_same t us (later_before t u us b o.0))))
    | inr b ↦ rw (e, b) (insert_ordered-new t us o.1)
  ]
]

pub insert_ordered-All :
    (P : Tuple → Type 0) (t : Tuple) (us : List Tuple)
    → P t
    → All P us
    → All P (insert_ordered t us).1
unfolding insert_ordered
insert_ordered-All P t [] p h = (p, tt)
insert_ordered-All P t (u ∷ us) p h = elim (Bool-cases (same t u)) [
  | inl e ↦ rw e h
  | inr e ↦ elim (Bool-cases (before t u)) [
    | inl b ↦ rw (e, b) (p, h)
    | inr b ↦ rw (e, b) (h.0, insert_ordered-All P t us p h.1)
  ]
]

pub insert_ordered-IsOrdered :
    (t : Tuple) (us : List Tuple) → IsOrdered us → IsOrdered (insert_ordered t us).1
unfolding insert_ordered
insert_ordered-IsOrdered t [] o = (tt, tt)
insert_ordered-IsOrdered t (u ∷ us) o = elim (Bool-cases (same t u)) [
  | inl e ↦ rw e o
  | inr e ↦ elim (Bool-cases (before t u)) [
    | inl b ↦ rw (e, b) ((b, later_before t u us b o.0), o)
    | inr b ↦
        rw (e, b)
          (
            insert_ordered-All (λ v. before u v ≡ true) t us (before_total t u e b) o.0,
            insert_ordered-IsOrdered t us o.1,
          )
  ]
]

-- What inserting a tuple of the set's arity makes.
pub insert_tuple_lem :
    (s : TupleSet) (t : Tuple)
    → IsWellFormed s
    → length t ≡ s.arity
    → (u : TupleSet) × (insert_tuple s t ≡ some (not (contains s t), u))
      × IsWellFormed u
      × ((x : Tuple) → contains u x ≡ (contains s x || same x t))
unfolding insert_tuple contains
insert_tuple_lem s t h e = (
  record s { tuples = (insert_ordered t s.tuples).1 },
  rw ((==_iff (length t) s.arity).1 e) (
      ap (λ n. some (n, record s { tuples = (insert_ordered t s.tuples).1 }))
        (insert_ordered-new t s.tuples h.0)),
  (
    insert_ordered-IsOrdered t s.tuples h.0,
    insert_ordered-All (λ v. length v ≡ s.arity) t s.tuples e h.1,
  ),
  insert_ordered-contains t s.tuples,
)

-- In a well-formed set, insert of a tuple of its arity returns whether the tuple was absent, and a
-- well-formed set with the old members and the tuple; insert of any other tuple panics.
pub insert_tuple_checked :
    (s : TupleSet) (t : Tuple)
    → IsWellFormed s
    → ((length t ≡ s.arity)
        × ((u : TupleSet) × (insert_tuple s t ≡ some (not (contains s t), u))
            × IsWellFormed u
            × ((x : Tuple) → contains u x ≡ (contains s x || same x t))))
      ⊎ ((¬ (length t ≡ s.arity)) × (insert_tuple s t ≡ none))
unfolding insert_tuple
insert_tuple_checked s t h = elim (Bool-cases (length t == s.arity)) [
  | inl e ↦
      let same_arity = (==_iff (length t) s.arity).0 e in
      inl (same_arity, insert_tuple_lem s t h same_arity)
  | inr e ↦ inr ((λ k. ground (arith, e, k)), rw e refl)
]

pub insert_tuple-arity :
    (s : TupleSet) (t : Tuple) (b : Bool) (u : TupleSet)
    → insert_tuple s t ≡ some (b, u)
    → u.arity ≡ s.arity
unfolding insert_tuple
insert_tuple-arity s t b u h = ground arith

subset_members :
    (ts : List Tuple) (other : TupleSet)
    → all ts (λ t. contains other t) ≡ true
    → (x : Tuple) → any ts (λ u. same x u) ≡ true
    → contains other x ≡ true
subset_members [] other h x k = absurd (cc k)
subset_members (t ∷ ts) other h x k = elim (Bool-cases (same x t)) [
  | inl e ↦ ground (arith, ap (contains other) (same→eq x t e))
  | inr e ↦ subset_members ts other (ground arith) x (ground arith)
]

members_subset :
    (ts : List Tuple) (other : TupleSet)
    → ((x : Tuple) → any ts (λ u. same x u) ≡ true → contains other x ≡ true)
    → all ts (λ t. contains other t) ≡ true
members_subset [] other h = refl
members_subset (t ∷ ts) other h = ground (
  arith,
  h t (ground (arith, same_refl t)),
  members_subset ts other (λ x k. h x (ground (arith, k))),
)

-- RelBound::new returns the bound of the two sets exactly when their arities agree and each member
-- of the lower set is one of the upper set.
pub bound_new_iff :
    (lower upper : TupleSet)
    → (bound_new lower upper ≡ some (record { lower = lower; upper = upper })) ↔ (
        (lower.arity ≡ upper.arity)
        × ((x : Tuple) → contains lower x ≡ true → contains upper x ≡ true))
unfolding bound_new is_subset_of contains
bound_new_iff lower upper = (
  λ h. (ground arith, λ x. subset_members lower.tuples upper (ground arith) x),
  λ h. rw ((==_iff lower.arity upper.arity).1 h.0, members_subset lower.tuples upper h.1) refl,
)
