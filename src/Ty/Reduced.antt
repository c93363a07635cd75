-- ===== src/Ty/Reduced.antt =====
-- No entry of a type is below another: the loops keep it so.
use mettle.Base.{
  ◌<◌, ◌≡◌, arith, Bool, false, not, Bool-cases, ◌==◌, List, [], ◌∷◌, ◌++◌, Option, none, some,
  length, any, retain, All, inl, inr,
}
use mettle.World.{ResolvedWorld}
use mettle.Ty.{
  Product, RelType, product_subtype, add, add_each, add_pairs, add_option, empty, union, intersect,
  product, union_with_common_arity, pick_common_arity, transpose, some_if, meet_columns,
  product_products, has_arity, swap,
}

abbrev pub Incomparable : ResolvedWorld → Product → List Product → Type 0
Incomparable w p es =
    All (λ e. (product_subtype w p e ≡ false) × (product_subtype w e p ≡ false)) es

-- The entries have a column or more and are pairwise incomparable.
abbrev pub IsReduced : ResolvedWorld → List Product → Type 0
IsReduced w [] = Unit
IsReduced w (p ∷ es) = (0 < length p) × Incomparable w p es × IsReduced w es

module _ (w : ResolvedWorld) where
  retain-Incomparable :
      (f : Product → Bool) (q : Product) (es : List Product)
      → Incomparable w q es
      → Incomparable w q (retain f es)
  retain-Incomparable f q [] h = tt
  retain-Incomparable f q (e ∷ es) h = elim (Bool-cases (f e)) [
    | inl g ↦ rw g (h.0, retain-Incomparable f q es h.1)
    | inr g ↦ rw g (retain-Incomparable f q es h.1)
  ]

  retain-IsReduced :
      (f : Product → Bool) (es : List Product) → IsReduced w es → IsReduced w (retain f es)
  retain-IsReduced f [] h = tt
  retain-IsReduced f (e ∷ es) h = elim (Bool-cases (f e)) [
    | inl g ↦ rw g (h.0, retain-Incomparable f e es h.1, retain-IsReduced f es h.2)
    | inr g ↦ rw g (retain-IsReduced f es h.2)
  ]

  -- What stays is incomparable with a product that is below no entry.
  left-Incomparable :
      (p : Product) (es : List Product)
      → any es (λ e. product_subtype w p e) ≡ false
      → Incomparable w p (retain (λ e. not (product_subtype w e p)) es)
  left-Incomparable p [] h = tt
  left-Incomparable p (e ∷ es) h = elim (Bool-cases (product_subtype w e p)) [
    | inl g ↦ rw g (left-Incomparable p es (ground arith))
    | inr g ↦ rw g ((ground arith, g), left-Incomparable p es (ground arith))
  ]

  snoc-Incomparable :
      (q p : Product) (es : List Product)
      → Incomparable w q es
      → (product_subtype w q p ≡ false) × (product_subtype w p q ≡ false)
      → Incomparable w q (es ++ (p ∷ []))
  snoc-Incomparable q p [] h k = (k, tt)
  snoc-Incomparable q p (e ∷ es) h k = (h.0, snoc-Incomparable q p es h.1 k)

  snoc-IsReduced :
      (p : Product) (es : List Product)
      → 0 < length p
      → Incomparable w p es
      → IsReduced w es
      → IsReduced w (es ++ (p ∷ []))
  snoc-IsReduced p [] n h k = (n, tt, tt)
  snoc-IsReduced p (e ∷ es) n h k =
      (k.0, snoc-Incomparable e p es k.1 (h.0.1, h.0.0), snoc-IsReduced p es n h.1 k.2)

  pub add-IsReduced :
      (t : RelType) (p : Product) → IsReduced w t.entries → IsReduced w (add w t p).entries
  unfolding add
  add-IsReduced t p h = elim (Bool-cases (length p == 0)) [
    | inl z ↦ rw z h
    | inr z ↦ elim (Bool-cases (any t.entries (λ e. product_subtype w p e))) [
      | inl g ↦ rw (z, g) h
      | inr g ↦
          rw (z, g)
            (snoc-IsReduced p (retain (λ e. not (product_subtype w e p)) t.entries) (ground arith)
              (left-Incomparable p t.entries g)
              (retain-IsReduced (λ e. not (product_subtype w e p)) t.entries h))
    ]
  ]

  pub add_each-IsReduced :
      (f : Product → Option Product) (t : RelType) (ps : List Product)
      → IsReduced w t.entries
      → IsReduced w (add_each w f t ps).entries
  unfolding add_each
  add_each-IsReduced f t [] h = h
  add_each-IsReduced f t (p ∷ ps) h = add_each-IsReduced f (add_option w t (f p)) ps (one (f p))
    where
      one : (o : Option Product) → IsReduced w (add_option w t o).entries
      one none = h
      one (some r) = add-IsReduced t r h

  pub add_pairs-IsReduced :
      (f : Product → Product → Option Product) (t : RelType) (ps qs : List Product)
      → IsReduced w t.entries
      → IsReduced w (add_pairs w f t ps qs).entries
  unfolding add_pairs
  add_pairs-IsReduced f t [] qs h = h
  add_pairs-IsReduced f t (p ∷ ps) qs h =
      add_pairs-IsReduced f (add_each w (f p) t qs) ps qs (add_each-IsReduced (f p) t qs h)

-- Whatever the operands, the entries of a union, an intersection, a product, a union of common
-- arity, a choice of common arity and a transpose have a column or more, and none of them is a
-- subtype of another.
pub operations-IsReduced :
    (w : ResolvedWorld) (t u : RelType)
    → IsReduced w (union w t u).entries
      × IsReduced w (intersect w t u).entries
      × IsReduced w (product w t u).entries
      × IsReduced w (union_with_common_arity w t u).entries
      × IsReduced w (pick_common_arity w t u).entries
      × IsReduced w (transpose w t).entries
unfolding union intersect product union_with_common_arity pick_common_arity transpose empty
operations-IsReduced w t u = (
  add_each-IsReduced w (λ p. some p) empty (t.entries ++ u.entries) tt,
  add_pairs-IsReduced w (λ a b. some_if (length a == length b) (meet_columns w a b)) empty t.entries
      u.entries tt,
  add_pairs-IsReduced w (λ a b. some (product_products w a b)) empty t.entries u.entries tt,
  add_each-IsReduced w (λ q. some_if (has_arity t (length q)) q)
      (add_each w (λ p. some_if (has_arity u (length p)) p) empty t.entries) u.entries
      (add_each-IsReduced w (λ p. some_if (has_arity u (length p)) p) empty t.entries tt),
  add_each-IsReduced w (λ p. some_if (has_arity u (length p)) p) empty t.entries tt,
  add_each-IsReduced w swap empty t.entries tt,
)
