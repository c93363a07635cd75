-- ===== src/Encode/Sets.antt =====
-- The set of the tuples whose cells a valuation makes true.
use mettle.Base.{
  ℕ, ◌<◌, ◌≡◌, refl, sym, ap, ap₂, ◌∙◌, arith, Bool, true, false, ◌&&◌, ◌||◌, Bool-cases, List, [],
  ◌∷◌, map, Option, none, some, length, any, All, All-map, retain, inl, inr,
}
use mettle.Solve.Models.{Valuation}
use mettle.Circuit
use mettle.Circuit.{CircuitBool, M}
use mettle.Circuit.Model.{Models, Shape, Total, Ready, bool_value}
use mettle.Circuit.Yields.{Yields}
use mettle.Bounds.{Tuple, TupleSet, same, before, contains}
use mettle.Bounds.Sets.{
  IsOrdered, same→eq, same_refl, same_comm, before_apart, none_same, later_before,
}
use mettle.Matrix.{Matrix, find_cell, get_cell, or_false}
use mettle.Eval.Members.{IsRelation, Returns}
use mettle.Encode.Matrices.{IsMatrix, Ascending, matrix, any_at, at_cell}
use mettle.Encode.Cells.{retain-All, retain-Ascending, any_retained}
use mettle.Encode.Loop.{any-map}

-- The tuples whose cells are true.
unfoldable pub set_of : Valuation → Matrix → TupleSet
set_of ρ m = record {
  arity = m.arity;
  tuples = map (λ e. e.0) (retain (λ e. bool_value ρ e.1) m.cells);
}

keys-IsOrdered : (A : Type 0) (es : List (Tuple × A)) → Ascending es → IsOrdered (map (λ e. e.0) es)
keys-IsOrdered A [] h = tt
keys-IsOrdered A (e ∷ es) h = (go es h.0, keys-IsOrdered A es h.1)
  where
    go :
        (ds : List (Tuple × A))
        → All (λ d. before e.0 d.0 ≡ true) ds
        → All (λ u. before e.0 u ≡ true) (map (λ d. d.0) ds)
    go [] k = tt
    go (d ∷ ds) k = (k.0, go ds k.1)

keys-All :
    {A : Type 0} (P : Tuple → Type 0) (es : List (Tuple × A))
    → All (λ e. P e.0) es
    → All P (map (λ e. e.0) es)
keys-All P [] h = tt
keys-All P (e ∷ es) h = (h.0, keys-All P es h.1)

pub set_of-IsRelation :
    (r n : ℕ) (ρ : Valuation) (m : Matrix) → 0 < r → IsMatrix r n m → IsRelation (set_of ρ m)
unfolding set_of
set_of-IsRelation r n ρ m p h =
    let kept = retain (λ e. bool_value ρ e.1) m.cells in
    (
      omega (arith, h.0),
      (
        keys-IsOrdered CircuitBool kept (retain-Ascending (λ e. bool_value ρ e.1) m.cells h.1),
        keys-All (λ t. length t ≡ m.arity) kept
            (retain-All (λ e. length e.0 ≡ m.arity) (λ e. bool_value ρ e.1) m.cells
              (All-map (λ e. (length e.0 ≡ r) × _) (λ e. length e.0 ≡ m.arity) m.cells
                (λ e k. k.0 ∙ sym h.0) h.2)),
      ),
    )

pub contains-set_of :
    (r n : ℕ) (ρ : Valuation) (m : Matrix) (u : Tuple)
    → IsMatrix r n m
    → contains (set_of ρ m) u ≡ bool_value ρ (get_cell m u)
unfolding set_of contains get_cell
contains-set_of r n ρ m u h =
    any-map (λ e. e.0) (retain (λ e. bool_value ρ e.1) m.cells) (λ t. same u t)
    ∙ (and_true (retain (λ e. bool_value ρ e.1) m.cells)
        ∙ (any_retained (λ e. bool_value ρ e.1) u (λ e. true) m.cells
            ∙ (any_at u m.cells (λ e. true && bool_value ρ e.1) h.1
                ∙ by_cell (find_cell u m.cells))))
  where
    and_true :
        (es : List (Tuple × CircuitBool))
        → any es (λ e. same u e.0) ≡ any es (λ e. same u e.0 && true)
    and_true [] = refl
    and_true (e ∷ es) = ground (arith, and_true es)

    by_cell :
        (o : Option CircuitBool)
        → at_cell (λ v. true && bool_value ρ v) o ≡ bool_value ρ (or_false o)
    by_cell none = refl
    by_cell (some v) = refl

any_kept :
    (q p : Tuple × CircuitBool → Bool) (es : List (Tuple × CircuitBool))
    → any (retain q es) p ≡ any es (λ e. p e && q e)
any_kept q p [] = refl
any_kept q p (e ∷ es) = elim (Bool-cases (q e)) [
  | inl k ↦ rw k (ground (arith, any_kept q p es))
  | inr k ↦ rw k (ground (arith, any_kept q p es))
]

-- A test of the members of the set as one of the cells.
pub any-set_of :
    (ρ : Valuation) (m : Matrix) (P : Tuple → Bool)
    → any (set_of ρ m).tuples P ≡ any m.cells (λ e. P e.0 && bool_value ρ e.1)
unfolding set_of
any-set_of ρ m P =
    any-map (λ e. e.0) (retain (λ e. bool_value ρ e.1) m.cells) P
    ∙ any_kept (λ e. bool_value ρ e.1) (λ e. P e.0) m.cells

-- A test of pairs of members as one of pairs of cells.
pub any-set_of_pairs :
    (ρ : Valuation) (a b : Matrix) (P : Tuple → Tuple → Bool)
    → any (set_of ρ a).tuples (λ t. any (set_of ρ b).tuples (λ w. P t w))
      ≡ any a.cells (λ e. any b.cells (λ d. P e.0 d.0 && (bool_value ρ e.1 && bool_value ρ d.1)))
any-set_of_pairs ρ a b P = any-set_of ρ a (λ t. any (set_of ρ b).tuples (λ w. P t w)) ∙ rows a.cells
  where
    factor :
        (c : Bool) (Q R : Tuple × CircuitBool → Bool) (ds : List (Tuple × CircuitBool))
        → (any ds (λ d. Q d && R d) && c) ≡ any ds (λ d. Q d && (c && R d))
    factor c Q R [] = refl
    factor c Q R (d ∷ ds) = ground (arith, factor c Q R ds)

    rows :
        (es : List (Tuple × CircuitBool))
        → any es (λ e. any (set_of ρ b).tuples (λ w. P e.0 w) && bool_value ρ e.1)
          ≡ any es (λ e. any b.cells (λ d. P e.0 d.0 && (bool_value ρ e.1 && bool_value ρ d.1)))
    rows [] = refl
    rows (e ∷ es) =
        ap₂ ◌||◌
          (ap (λ c. c && bool_value ρ e.1) (any-set_of ρ b (λ w. P e.0 w))
            ∙ factor (bool_value ρ e.1) (λ d. P e.0 d.0) (λ d. bool_value ρ d.1) b.cells)
          (rows es)

-- A set with its tuples in order is determined by its members.
member_later :
    (t x : Tuple) (ts : List Tuple)
    → All (λ u. before t u ≡ true) ts
    → any ts (λ u. same x u) ≡ true
    → before t x ≡ true
member_later t x [] h k = absurd (cc k)
member_later t x (u ∷ ts) h k = elim (Bool-cases (same x u)) [
  | inl e ↦ ap (before t) (same→eq x u e) ∙ h.0
  | inr e ↦ member_later t x ts h.1 (ground (arith, k, e))
]

not_each_way : (x y : Tuple) → before x y ≡ true → before y x ≡ true → ⊥
not_each_way x y h k =
    cc (sym (same_refl x), before_apart x x (later_before x y (x ∷ []) h (k, tt)).0)

same_first :
    (x y : Tuple) (xs ys : List Tuple)
    → IsOrdered (x ∷ xs)
    → IsOrdered (y ∷ ys)
    → ((z : Tuple) → any (x ∷ xs) (λ u. same z u) ≡ any (y ∷ ys) (λ u. same z u))
    → x ≡ y
same_first x y xs ys a b h = elim (Bool-cases (same x y)) [
  | inl e ↦ same→eq x y e
  | inr e ↦ absurd (
      not_each_way x y (member_later x y xs a.0 (ground (arith, h y, same_refl y, same_comm x y)))
        (member_later y x ys b.0 (ground (arith, h x, same_refl x))))
]

IsOrdered-unique :
    (xs ys : List Tuple)
    → IsOrdered xs
    → IsOrdered ys
    → ((z : Tuple) → any xs (λ u. same z u) ≡ any ys (λ u. same z u))
    → xs ≡ ys
IsOrdered-unique [] [] a b h = refl
IsOrdered-unique [] (y ∷ ys) a b h = absurd (ground (arith, h y, same_refl y))
IsOrdered-unique (x ∷ xs) [] a b h = absurd (ground (arith, h x, same_refl x))
IsOrdered-unique (x ∷ xs) (y ∷ ys) a b h =
    let e : x ≡ y = same_first x y xs ys a b h in
    ap₂ ◌∷◌ e (
      IsOrdered-unique xs ys a.1 b.1 (λ z.
        let first : same z x ≡ same z y = ap (same z) e in
        let gone : same z x ≡ true → any xs (λ u. same z u) ≡ false =
          λ q. ap (λ w. any xs (λ u. same w u)) (same→eq z x q) ∙ none_same x xs a.0 in
        let gone' : same z y ≡ true → any ys (λ u. same z u) ≡ false =
          λ q. ap (λ w. any ys (λ u. same w u)) (same→eq z y q) ∙ none_same y ys b.0 in
        ground (arith, h z, first, gone, gone')))

pub sets_equal :
    (a b : TupleSet)
    → a.arity ≡ b.arity
    → IsOrdered a.tuples
    → IsOrdered b.tuples
    → ((x : Tuple) → contains a x ≡ contains b x)
    → a ≡ b
unfolding contains
sets_equal a b e ha hb h i = record {
  arity = e i;
  tuples = IsOrdered-unique a.tuples b.tuples ha hb h i;
}

-- The matrix as the set that it holds.
abbrev pub relation : ℕ → Shape Matrix TupleSet
unfolding set_of
relation r = record { minted = IsMatrix r; eval = λ ρ m. set_of ρ m; mono = (matrix r).mono }

-- The circuit of an operator computes what the evaluator does.
abbrev pub Refines : ℕ → Circuit.Circuit → ℕ → M Matrix → (Valuation → Option TupleSet) → Type 0
Refines r s k m o = Yields (relation r) s k m (λ ρ t. o ρ ≡ some t)

-- An operator that computes the members of a set returns that set.
pub refines :
    (r : ℕ) {s : Circuit.Circuit} {k : ℕ} {m : M Matrix} (G : Valuation → Tuple → Bool)
    (o : Valuation → Option TupleSet)
    → 0 < r
    → Total (matrix r) s k m G
    → Ready k s
    → ((ρ : Valuation) → Models ρ s → Returns (o ρ) r (G ρ))
    → Refines r s k m o
unfolding relation
refines r G o p c h f =
    let d = c h in
    record {
      result = d.result;
      state = d.state;
      runs = d.runs;
      valid = d.valid;
      extends = d.extends;
      minted = d.denotes.minted;
      holds = λ ρ i.
          let g = f ρ (d.extends.keeps ρ i) in
          let t = set_of-IsRelation r d.state.cnf.num_vars ρ d.result p d.denotes.minted in
          g.returns
          ∙ ap some (
              sets_equal g.set (set_of ρ d.result) (g.same_arity ∙ sym d.denotes.minted.0)
                g.relation.1.0 t.1.0
                (λ x.
                  g.members x
                  ∙ (sym (ap (λ w. w x) (d.denotes.value ρ i))
                      ∙ sym
                          (contains-set_of r d.state.cnf.num_vars ρ d.result x d.denotes.minted))));
    }
