-- ===== src/Ty/Subtype.antt =====
-- The subtype test decides the inclusion of what two types cover.
use mettle.Base.{
  ◌≡◌, refl, arith, Bool, true, false, not, Bool-cases, ◌&&◌, List, [], ◌∷◌, any, all, retain, All,
  ◌↔◌, inl, inr,
}
use mettle.World.{ResolvedWorld}
use mettle.World.Hierarchy.{Hierarchy}
use mettle.Ty.{Product, RelType, product_subtype, is_empty, is_subtype_of}
use mettle.Ty.Covers.{covers, covered_above, subtype_reflexive}
use mettle.Ty.Meet.{IsInhabited, none_headed}

-- Only the entries headed by `none` have no tuple.
abbrev pub IsNormal : ResolvedWorld → RelType → Type 0
IsNormal w t = All (λ p. is_empty w p ≡ false → IsInhabited w p) t.entries

module _ {w : ResolvedWorld} (h : Hierarchy w) (us : List Product) where
  abbrev in_other : Product → Bool
  in_other p = any us (λ q. product_subtype w p q)

  abbrev kept : List Product → List Product
  kept es = retain (λ p. not (is_empty w p)) es

  sound :
      (es : List Product) (q : Product)
      → IsInhabited w q
      → all (kept es) in_other ≡ true
      → any es (λ e. product_subtype w q e) ≡ true
      → in_other q ≡ true
  sound [] q i g k = absurd (cc k)
  sound (e ∷ es) q i g k = elim (Bool-cases (is_empty w e)) [
    | inl z ↦ sound es q i (rw z at g) (ground (arith, none_headed h e q i z))
    | inr z ↦
        let below : (in_other e && all (kept es) in_other) ≡ true = rw z at g in
        ground (arith, sound es q i, covered_above h us e q)
  ]

  complete :
      (es : List Product)
      → All (λ e. is_empty w e ≡ false → in_other e ≡ true) es
      → all (kept es) in_other ≡ true
  complete [] g = refl
  complete (e ∷ es) g = elim (Bool-cases (is_empty w e)) [
    | inl z ↦ rw z (complete es g.1)
    | inr z ↦ rw (z, g.0 z) (complete es g.1)
  ]

  -- What every covered product satisfies, the entries satisfy.
  entries_of :
      (P : Product → Type 0) (es : List Product)
      → ((p : Product) → any es (λ e. product_subtype w p e) ≡ true → P p)
      → All P es
  entries_of P [] g = tt
  entries_of P (e ∷ es) g = (
    g e (ground (arith, subtype_reflexive h e)),
    entries_of P es (λ p k. g p (ground (arith, k))),
  )

  both-All :
      (es : List Product)
      → All (λ p. is_empty w p ≡ false → IsInhabited w p) es
      → All (λ p. IsInhabited w p → in_other p ≡ true) es
      → All (λ p. is_empty w p ≡ false → in_other p ≡ true) es
  both-All [] n g = tt
  both-All (e ∷ es) n g = ((λ z. g.0 (n.0 z)), both-All es n.1 g.1)

-- In a world whose sigs are a forest, for a type in which only the entries headed by none have no
-- tuple: is_subtype_of is true exactly when the other type covers every product that can have a
-- tuple and that the type covers.
pub is_subtype_of_iff :
    (w : ResolvedWorld)
    → Hierarchy w
    → (t u : RelType) → IsNormal w t
    → (is_subtype_of w t u ≡ true)
      ↔ ((q : Product) → IsInhabited w q → covers w t q ≡ true → covers w u q ≡ true)
unfolding is_subtype_of
is_subtype_of_iff w h t u n = (
  λ g q i k. sound h u.entries t.entries q i g k,
  λ g. complete h u.entries t.entries (
      both-All h u.entries t.entries n (
        entries_of h u.entries (λ p. IsInhabited w p → covers w u p ≡ true) t.entries
          (λ p k i. g p i k))),
)
