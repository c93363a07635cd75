-- ===== src/Ty/Join/Composition.antt =====
-- `join` of crates/als-types/src/ty.rs and the composition of types: the columns of a product of the
-- first and of one of the second, around a sig that both have.
use mettle.Base.{
  ◌<◌, ◌≡◌, refl, arith, Bool, true, false, Bool-cases, ◌||◌, ltb, List, [], ◌∷◌, ◌++◌, Option,
  some, length, any, All, ◌⊎◌, ◌↔◌, inl, inr,
}
use mettle.World.{ResolvedWorld}
use mettle.World.Hierarchy.{IsWellFormed, Hierarchy, hierarchy}
use mettle.Ty.{Product, RelType, product_subtype, add, empty, no_entries}
use mettle.Ty.Covers.{covers, add-covers}
use mettle.Ty.Reduced.{IsReduced, add-IsReduced}
use mettle.Ty.Meet.{IsInhabited}
use mettle.Ty.Join.{join_row, join_rows, join}
use mettle.Ty.Join.Products.{Composes, below, pair-Composes, narrow-Composes}

-- A composition with one of two tests for the right, or for the left, is one with the first or one
-- with the second.
Composes-right :
    (w : ResolvedWorld) (f g k : Product → Bool) (v : Product)
    → Composes w f (λ z. g z || k z) v ↔ (Composes w f g v ⊎ Composes w f k v)
Composes-right w f g k v = (to, from)
  where
    to : Composes w f (λ z. g z || k z) v → Composes w f g v ⊎ Composes w f k v
    to (p, q, x, e, n, l, r) = elim (Bool-cases (g (x ∷ q))) [
      | inl t ↦ inl (p, q, x, e, n, l, t)
      | inr t ↦ inr (p, q, x, e, n, l, rw t at r)
    ]

    from : Composes w f g v ⊎ Composes w f k v → Composes w f (λ z. g z || k z) v
    from (inl (p, q, x, e, n, l, r)) = (p, q, x, e, n, l, rw r refl)
    from (inr (p, q, x, e, n, l, r)) = (p, q, x, e, n, l, ground (arith, r))

Composes-left :
    (w : ResolvedWorld) (f g k : Product → Bool) (v : Product)
    → Composes w (λ z. g z || k z) f v ↔ (Composes w g f v ⊎ Composes w k f v)
Composes-left w f g k v = (to, from)
  where
    to : Composes w (λ z. g z || k z) f v → Composes w g f v ⊎ Composes w k f v
    to (p, q, x, e, n, l, r) = elim (Bool-cases (g (p ++ (x ∷ [])))) [
      | inl t ↦ inl (p, q, x, e, n, t, r)
      | inr t ↦ inr (p, q, x, e, n, rw t at l, r)
    ]

    from : Composes w g f v ⊎ Composes w k f v → Composes w (λ z. g z || k z) f v
    from (inl (p, q, x, e, n, l, r)) = (p, q, x, e, n, rw l refl, r)
    from (inr (p, q, x, e, n, l, r)) = (p, q, x, e, n, ground (arith, l), r)

-- A product of columns of the arena.
abbrev pub IsProduct : ResolvedWorld → Product → Type 0
IsProduct w p = (0 < length p) × All (λ c. c < length w.sigs) p

-- The loop returns a type without subtypes among its entries, which covers `v` exactly when `C`.
abbrev Gives : ResolvedWorld → Product → Option RelType → Type 0 → Type 0
Gives w v o C = (r : RelType) × (o ≡ some r) × IsReduced w r.entries × ((covers w r v ≡ true) ↔ C)

abbrev under : ResolvedWorld → List Product → Product → Bool
under w es z = any es (λ e. product_subtype w z e)

-- One more operand of a disjunction.
widened : {A B C P S T U : Type 0} → C ↔ (B ⊎ S) → B ↔ (A ⊎ P) → P ↔ T → U ↔ (T ⊎ S) → C ↔ (A ⊎ U)
widened {A} {B} {C} {P} {S} {T} {U} c b d u = (to, from)
  where
    first : A ⊎ P → A ⊎ U
    first (inl x) = inl x
    first (inr p) = inr (u.1 (inl (d.0 p)))

    both : B ⊎ S → A ⊎ U
    both (inl y) = first (b.0 y)
    both (inr s) = inr (u.1 (inr s))

    to : C → A ⊎ U
    to x = both (c.0 x)

    back : T ⊎ S → C
    back (inl t) = c.1 (inl (b.1 (inr (d.1 t))))
    back (inr s) = c.1 (inr s)

    from : A ⊎ U → C
    from (inl x) = c.1 (inl (b.1 (inl x)))
    from (inr y) = back (u.0 y)

unwidened : {A C S T U : Type 0} → C ↔ (A ⊎ S) → ¬ T → U ↔ (T ⊎ S) → C ↔ (A ⊎ U)
unwidened {A} {C} {S} {T} {U} c n u = (to, from)
  where
    inner : A ⊎ S → A ⊎ U
    inner (inl x) = inl x
    inner (inr s) = inr (u.1 (inr s))

    to : C → A ⊎ U
    to x = inner (c.0 x)

    back : T ⊎ S → C
    back (inl t) = absurd (n t)
    back (inr s) = c.1 (inr s)

    from : A ⊎ U → C
    from (inl x) = c.1 (inl x)
    from (inr y) = back (u.0 y)

module _ {w : ResolvedWorld} (h : Hierarchy w) (v : Product) (i : IsInhabited w v) where
  added :
      (out : RelType) (p : Product)
      → (covers w (add w out p) v ≡ true)
        ↔ ((covers w out v ≡ true) ⊎ (product_subtype w v p ≡ true))
  added out p = rw (add-covers h out p v i.0) (or_iff (covers w out v) (product_subtype w v p))
    where
      or_iff : (x y : Bool) → ((x || y) ≡ true) ↔ ((x ≡ true) ⊎ (y ≡ true))
      or_iff x y = ground arith

  row-Composes :
      (bs : List Product) (a : Product) (out : RelType)
      → IsProduct w a
      → All (IsProduct w) bs
      → IsReduced w out.entries
      → Gives w v
          (join_row w out a bs)
          ((covers w out v ≡ true) ⊎ Composes w (below w a) (under w bs) v)
  unfolding join_row
  row-Composes [] a out m n o =
      (out, refl, o, (λ g. inl g, λ s. elim s [ inl g ↦ g | inr t ↦ absurd (cc (t.6)) ]))
  row-Composes (b ∷ bs) a out m n o = elim (Bool-cases (ltb 1 (length a) || ltb 1 (length b))) [
    | inl e ↦
        let (p, q, d) = pair-Composes h a b v m.0 n.0.0 i e in
        let (r, k, s, c) = row-Composes bs a (add w out p) m n.1 (add-IsReduced w out p o) in
        (
          r,
          rw (e, q) k,
          s,
          widened c (added out p) d (Composes-right w (below w a) (below w b) (under w bs) v),
        )
    | inr e ↦
        let (r, k, s, c) = row-Composes bs a out m n.1 o in
        let apart = narrow-Composes h a b v i e in
        (r, rw e k, s, unwidened c apart (Composes-right w (below w a) (below w b) (under w bs) v))
  ]

  rows_compose :
      (ps bs : List Product) (out : RelType)
      → All (IsProduct w) ps
      → All (IsProduct w) bs
      → IsReduced w out.entries
      → Gives w v
          (join_rows w out ps bs)
          ((covers w out v ≡ true) ⊎ Composes w (under w ps) (under w bs) v)
  unfolding join_rows
  rows_compose [] bs out m n o =
      (out, refl, o, (λ g. inl g, λ s. elim s [ inl g ↦ g | inr t ↦ absurd (cc (t.5)) ]))
  rows_compose (a ∷ ps) bs out m n o =
      let (next, q, d, b) = row-Composes bs a out m.0 n o in
      let (r, k, s, c) = rows_compose ps bs next m.1 n d in
      (
        r,
        rw q k,
        s,
        widened c b (λ t. t, λ t. t) (Composes-left w (under w bs) (below w a) (under w ps) v),
      )

-- In a well-formed world, of two types whose entries have a column or more and only sigs of the
-- arena, the join returns and no entry of the result is a subtype of another; and a product that
-- has a column or more and no column none is covered by the result exactly when it is two products
-- put together such that, for some sig other than none, the first type covers the one with the sig
-- at its end and the second type covers the other with the sig at its head.
pub join-Composes :
    (w : ResolvedWorld) (t u : RelType) (v : Product)
    → IsWellFormed w
    → All (IsProduct w) t.entries
    → All (IsProduct w) u.entries
    → IsInhabited w v
    → (r : RelType) × (join w t u ≡ some r)
      × IsReduced w r.entries
      × ((covers w r v ≡ true) ↔ Composes w (covers w t) (covers w u) v)
unfolding join empty
join-Composes w t u v valid m n i =
    elim (Bool-cases (no_entries t.entries || no_entries u.entries)) [
      | inl e ↦ (
        empty,
        rw e refl,
        tt,
        (λ g. absurd (cc g), λ c. absurd (nothing t.entries u.entries e c)),
      )
      | inr e ↦
          let (r, k, s, c) =
            rows_compose (hierarchy w valid) v i t.entries u.entries empty m n tt in
          (r, rw e k, s, not_covered c)
    ]
  where
    not_covered : {C D : Type 0} → C ↔ ((false ≡ true) ⊎ D) → C ↔ D
    not_covered {C} {D} c =
        (λ x. elim (c.0 x) [ inl f ↦ absurd (cc f) | inr d ↦ d ], λ d. c.1 (inr d))

    nothing :
        (ps bs : List Product)
        → (no_entries ps || no_entries bs) ≡ true
        → ¬ Composes w (under w ps) (under w bs) v
    nothing [] bs e (p, q, x, k, z, l, r) = cc l
    nothing (a ∷ ps) [] e (p, q, x, k, z, l, r) = cc r
    nothing (a ∷ ps) (b ∷ bs) e c = cc e
