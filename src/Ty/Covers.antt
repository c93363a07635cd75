-- ===== src/Ty/Covers.antt =====
-- What a type covers: the products below one of its entries. The loops that add products to a type
-- add just what those products cover.
use mettle.Base.{
  ◌<◌, ◌≡◌, refl, ap, ◌∙◌, arith, Bool, true, false, not, Bool-cases, ◌||◌, ◌==◌, ==_iff, List, [],
  ◌∷◌, ◌++◌, Option, none, some, length, any, retain, inl, inr,
}
use mettle.World.{SigId, ResolvedWorld, is_same_or_descendent}
use mettle.World.Hierarchy.{Hierarchy}
use mettle.Ty.{
  Product, RelType, product_subtype, all_columns, add, add_each, add_pairs, add_option, empty,
  union,
}

abbrev pub covers : ResolvedWorld → RelType → Product → Bool
covers w t q = any t.entries (λ e. product_subtype w q e)

-- What one turn of a loop may add.
abbrev pub covers_option : ResolvedWorld → Option Product → Product → Bool
covers_option w none q = false
covers_option w (some p) q = product_subtype w q p

module _ {w : ResolvedWorld} (h : Hierarchy w) where
  columns_reflexive : (p : Product) → all_columns (λ a b. is_same_or_descendent w a b) p p ≡ true
  columns_reflexive [] = refl
  columns_reflexive (c ∷ p) = rw (h.reflexive c, columns_reflexive p) refl

  pub subtype_reflexive : (p : Product) → product_subtype w p p ≡ true
  unfolding product_subtype
  subtype_reflexive p = rw ((==_iff (length p) (length p)).1 refl, columns_reflexive p) refl

  pub subtype_transitive :
      (p q r : Product)
      → product_subtype w p q ≡ true
      → product_subtype w q r ≡ true
      → product_subtype w p r ≡ true
  unfolding product_subtype
  subtype_transitive [] [] r g k = k
  subtype_transitive [] (c ∷ q) r g k = ground arith
  subtype_transitive (a ∷ p) [] r g k = ground arith
  subtype_transitive (a ∷ p) (b ∷ q) [] g k = ground arith
  subtype_transitive (a ∷ p) (b ∷ q) (c ∷ r) g k =
      ground (arith, h.transitive a b c, subtype_transitive p q r)

any-append :
    {A : Type 0} (f : A → Bool) (xs ys : List A) → any (xs ++ ys) f ≡ (any xs f || any ys f)
any-append f [] ys = refl
any-append f (x ∷ xs) ys = ground (arith, any-append f xs ys)

module _ {w : ResolvedWorld} (h : Hierarchy w) where
  -- What an entry covers, a product above the entry covers.
  pub covered_above :
      (es : List Product) (p q : Product)
      → any es (λ e. product_subtype w p e) ≡ true
      → product_subtype w q p ≡ true
      → any es (λ e. product_subtype w q e) ≡ true
  covered_above [] p q g k = g
  covered_above (e ∷ es) p q g k = ground (arith, covered_above es p q, subtype_transitive h q p e)

  -- The entries that go are below the product that comes.
  retain-covers :
      (es : List Product) (p q : Product)
      → (any (retain (λ e. not (product_subtype w e p)) es) (λ e. product_subtype w q e)
          || product_subtype w q p)
        ≡ (any es (λ e. product_subtype w q e) || product_subtype w q p)
  retain-covers [] p q = refl
  retain-covers (e ∷ es) p q = elim (Bool-cases (product_subtype w e p)) [
    | inl g ↦ rw g (ground (arith, retain-covers es p q, subtype_transitive h q e p))
    | inr g ↦ rw g (ground (arith, retain-covers es p q))
  ]

  nonzero : (c : SigId) (p : Product) → (length (c ∷ p) == 0) ≡ false
  nonzero c p = ground arith

  no_columns : (q : Product) → 0 < length q → product_subtype w q [] ≡ false
  unfolding product_subtype
  no_columns [] n = absurd (omega arith)
  no_columns (c ∷ q) n = ground arith

  or-false : (b : Bool) → (b || false) ≡ b
  or-false true = refl
  or-false false = refl

  -- `add` adds what its product covers, of one column or more.
  pub add-covers :
      (t : RelType) (p q : Product)
      → 0 < length q
      → covers w (add w t p) q ≡ (covers w t q || product_subtype w q p)
  unfolding add
  add-covers t [] q n = ground (arith, no_columns q n)
  add-covers t (c ∷ p) q n = elim (Bool-cases (any t.entries (λ e. product_subtype w (c ∷ p) e))) [
    | inl g ↦ rw (nonzero c p, g) (ground (arith, covered_above t.entries (c ∷ p) q g))
    | inr g ↦
        rw (nonzero c p, g)
          (any-append (λ e. product_subtype w q e)
              (retain (λ e. not (product_subtype w e (c ∷ p))) t.entries) ((c ∷ p) ∷ [])
            ∙ (ap
                  (λ b.
                    any (retain (λ e. not (product_subtype w e (c ∷ p))) t.entries)
                      (λ e. product_subtype w q e)
                    || b)
                  (or-false _)
                ∙ retain-covers t.entries (c ∷ p) q))
  ]

  pub add_option-covers :
      (t : RelType) (o : Option Product) (q : Product)
      → 0 < length q
      → covers w (add_option w t o) q ≡ (covers w t q || covers_option w o q)
  add_option-covers t none q n = ground arith
  add_option-covers t (some p) q n = add-covers t p q n

  pub add_each-covers :
      (f : Product → Option Product) (t : RelType) (ps : List Product) (q : Product)
      → 0 < length q
      → covers w (add_each w f t ps) q ≡ (covers w t q || any ps (λ p. covers_option w (f p) q))
  unfolding add_each
  add_each-covers f t [] q n = ground arith
  add_each-covers f t (p ∷ ps) q n =
      ground (arith, add_each-covers f (add_option w t (f p)) ps q n, add_option-covers t (f p) q n)

  pub add_pairs-covers :
      (f : Product → Product → Option Product) (t : RelType) (ps qs : List Product) (q : Product)
      → 0 < length q
      → covers w (add_pairs w f t ps qs) q
        ≡ (covers w t q || any ps (λ p. any qs (λ r. covers_option w (f p r) q)))
  unfolding add_pairs
  add_pairs-covers f t [] qs q n = ground arith
  add_pairs-covers f t (p ∷ ps) qs q n =
      ground (
        arith,
        add_pairs-covers f (add_each w (f p) t qs) ps qs q n,
        add_each-covers (f p) t qs q n,
      )

-- In a world whose sigs are a forest, the union of two types covers a product of one column or
-- more exactly when one of them covers it.
pub union-covers :
    (w : ResolvedWorld)
    → Hierarchy w
    → (t u : RelType) (q : Product) → 0 < length q
    → covers w (union w t u) q ≡ (covers w t q || covers w u q)
unfolding union
union-covers w h t u q n =
    add_each-covers h (λ p. some p) empty (t.entries ++ u.entries) q n
    ∙ unfold empty in any-append (λ e. product_subtype w q e) t.entries u.entries
