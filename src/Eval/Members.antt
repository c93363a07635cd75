-- ===== src/Eval/Members.antt =====
-- The members of the results of the set algebra.
use mettle.Base.{
  ℕ, zero, suc, ◌+◌, ◌<◌, ◌≡◌, refl, sym, ap, ap₂, subst, ◌∙◌, arith, Bool, true, false, not, ◌&&◌,
  ◌||◌, List, [], ◌∷◌, ◌++◌, Option, some, length, length-append, any, All, All-append, All-map,
  Bool-cases, inl, inr,
}
use mettle.Bounds.{Tuple, TupleSet, same, tuple_new, empty_set, contains}
use mettle.Bounds.Sets.{IsWellFormed, same→eq}
use mettle.Eval.{
  Turn, and_then, checked, appended, insert_each, insert_pairs, whole, only_if, union, intersect,
  diff, product,
}
use mettle.Eval.Loop.{inserts, IsTurn, Inserts, insert_each_lem, insert_pairs_lem}

-- A set of tuples of its arity, which is not 0.
abbrev pub IsRelation : TupleSet → Type 0
IsRelation s = (0 < s.arity) × IsWellFormed s

-- A set of arity `n` whose members are the tuples of `P`.
pub record Returns (o : Option TupleSet) (n : ℕ) (P : Tuple → Bool) : Type 0 where
  pub set : TupleSet
  pub returns : o ≡ some set
  pub relation : IsRelation set
  pub same_arity : set.arity ≡ n
  pub members : (x : Tuple) → contains set x ≡ P x

pub returns_same :
    {o : Option TupleSet} {n : ℕ} {P : Tuple → Bool} (Q : Tuple → Bool)
    → ((x : Tuple) → P x ≡ Q x)
    → Returns o n P
    → Returns o n Q
returns_same Q e r = record {
  set = r.set;
  returns = r.returns;
  relation = r.relation;
  same_arity = r.same_arity;
  members = λ x. r.members x ∙ e x;
}

pub at_arity :
    {o : Option TupleSet} {n m : ℕ} {P : Tuple → Bool} → n ≡ m → Returns o n P → Returns o m P
at_arity e r = record {
  set = r.set;
  returns = r.returns;
  relation = r.relation;
  same_arity = r.same_arity ∙ e;
  members = r.members;
}

-- A relation is what a computation that yields it returns.
pub itself : (a : TupleSet) → IsRelation a → Returns (some a) a.arity (contains a)
itself a h = record {
  set = a;
  returns = refl;
  relation = h;
  same_arity = refl;
  members = λ x. refl;
}

pub from_empty :
    (n : ℕ) (loop : TupleSet → Option TupleSet) (P : Tuple → Bool)
    → 0 < n
    → ((out : TupleSet) → IsWellFormed out → out.arity ≡ n → Inserts out (loop out) P)
    → Returns (and_then (empty_set n) loop) n P
unfolding empty_set contains
from_empty zero loop P h k = absurd (omega arith)
from_empty (suc n) loop P h k =
    let r = k (record { arity = suc n; tuples = [] }) (tt, tt) refl in
    record {
      set = r.set;
      returns = r.returns;
      relation = (omega (arith, r.same_arity), r.valid);
      same_arity = r.same_arity;
      members = r.members;
    }

pub any-append :
    {A : Type 0} (xs ys : List A) (p : A → Bool) → any (xs ++ ys) p ≡ (any xs p || any ys p)
any-append [] ys p = refl
any-append (x ∷ xs) ys p = ground (arith, any-append xs ys p)

pub any_same :
    {A : Type 0} (xs : List A) (P : A → Type 0) (p q : A → Bool)
    → All P xs
    → ((x : A) → P x → p x ≡ q x)
    → any xs p ≡ any xs q
any_same [] P p q h e = refl
any_same (x ∷ xs) P p q h e = ap₂ ◌||◌ (e x h.0) (any_same xs P p q h.1 e)

pub kept_member :
    (ts : List Tuple) (Q : Tuple → Bool) (x : Tuple)
    → any ts (λ t. inserts (only_if (Q t) t) x) ≡ (any ts (λ t. same x t) && Q x)
kept_member [] Q x = refl
kept_member (t ∷ ts) Q x =
    let at_same : same x t ≡ true → Q x ≡ Q t = λ q. ap Q (same→eq x t q) in
    elim (Bool-cases (Q t)) [
      | inl e ↦ rw e (ground (arith, kept_member ts Q x, at_same))
      | inr e ↦ rw e (ground (arith, kept_member ts Q x, at_same))
    ]

pub only_if-IsTurn : (n : ℕ) (b : Bool) (t : Tuple) → length t ≡ n → IsTurn n (only_if b t)
only_if-IsTurn n true t h = h
only_if-IsTurn n false t h = tt

-- A loop that keeps the members of `a` that a test holds of.
kept :
    (a : TupleSet) (Q : Tuple → Bool)
    → IsRelation a
    → Returns
        (and_then (empty_set a.arity) (λ out. insert_each (λ t. only_if (Q t) t) out a.tuples))
        a.arity
        (λ x. contains a x && Q x)
unfolding contains
kept a Q h =
    returns_same (λ x. contains a x && Q x) (kept_member a.tuples Q)
      (from_empty a.arity (λ out. insert_each (λ t. only_if (Q t) t) out a.tuples)
        (λ x. any a.tuples (λ t. inserts (only_if (Q t) t) x)) h.0
        (λ out v e.
          insert_each_lem (λ t. only_if (Q t) t) out a.tuples v
            (All-map (λ t. length t ≡ a.arity) (λ t. IsTurn out.arity (only_if (Q t) t)) a.tuples
              (λ t l. only_if-IsTurn out.arity (Q t) t (l ∙ sym e)) h.1.1)))

module _ (a b : TupleSet) (ha : IsRelation a) where
  pub intersect_lem : Returns (intersect a b) a.arity (λ x. contains a x && contains b x)
  unfolding intersect
  intersect_lem = kept a (contains b) ha

  pub diff_lem : Returns (diff a b) a.arity (λ x. contains a x && not (contains b x))
  unfolding diff
  diff_lem = kept a (λ t. not (contains b t)) ha

  pub union_lem :
      IsRelation b
      → b.arity ≡ a.arity
      → Returns (union a b) a.arity (λ x. contains a x || contains b x)
  unfolding union contains
  union_lem hb e =
      returns_same (λ x. contains a x || contains b x)
        (λ x. any-append a.tuples b.tuples (λ t. same x t))
        (from_empty a.arity (λ out. insert_each whole out (a.tuples ++ b.tuples))
          (λ x. any (a.tuples ++ b.tuples) (λ t. inserts (whole t) x)) ha.0
          (λ out v f. insert_each_lem whole out (a.tuples ++ b.tuples) v (
            All-append (λ t. length t ≡ out.arity) a.tuples b.tuples
              (All-map (λ t. length t ≡ a.arity) (λ t. length t ≡ out.arity) a.tuples
                (λ t l. l ∙ sym f) ha.1.1)
              (All-map (λ t. length t ≡ b.arity) (λ t. length t ≡ out.arity) b.tuples
                (λ t l. l ∙ (e ∙ sym f)) hb.1.1))))

  -- The loop over the pairs of two sets.
  pub pairs_lem :
      (n : ℕ) (f : Tuple → Tuple → Turn)
      → 0 < n
      → IsRelation b
      → ((t u : Tuple) → length t ≡ a.arity → length u ≡ b.arity → IsTurn n (f t u))
      → Returns
          (and_then (empty_set n) (λ out. insert_pairs f out a.tuples b.tuples))
          n
          (λ x. any a.tuples (λ t. any b.tuples (λ u. inserts (f t u) x)))
  pairs_lem n f p hb k =
      from_empty n (λ out. insert_pairs f out a.tuples b.tuples)
        (λ x. any a.tuples (λ t. any b.tuples (λ u. inserts (f t u) x))) p
        (λ out v e. insert_pairs_lem f out a.tuples b.tuples v (
          All-map (λ t. length t ≡ a.arity) (λ t. All (λ u. IsTurn out.arity (f t u)) b.tuples)
            a.tuples
            (λ t l.
              All-map (λ u. length u ≡ b.arity) (λ u. IsTurn out.arity (f t u)) b.tuples
                (λ u m. subst (λ i. IsTurn i (f t u)) (sym e) (k t u l m)) hb.1.1)
            ha.1.1))

checked-IsTurn : (n : ℕ) (t : Tuple) → 0 < n → length t ≡ n → IsTurn n (checked (tuple_new t))
unfolding tuple_new
checked-IsTurn n [] p h = absurd (omega arith)
checked-IsTurn n (x ∷ t) p h = h

pub appended-IsTurn :
    (m n : ℕ) (t u : Tuple) → 0 < m → length t ≡ m → length u ≡ n → IsTurn (m + n) (appended t u)
unfolding appended
appended-IsTurn m n t u p h k =
    checked-IsTurn (m + n) (t ++ u) (omega arith) (omega (arith, length-append t u))

pub product_lem :
    (a b : TupleSet)
    → IsRelation a
    → IsRelation b
    → Returns
        (product a b)
        (a.arity + b.arity)
        (λ x. any a.tuples (λ t. any b.tuples (λ u. inserts (appended t u) x)))
unfolding product
product_lem a b ha hb =
    pairs_lem a b ha (a.arity + b.arity) (λ t u. appended t u) (omega (arith, ha.0)) hb
      (λ t u l m. appended-IsTurn a.arity b.arity t u ha.0 l m)
