-- ===== src/Ty/Join/Products.antt =====
-- `join_products` of crates/als-types/src/ty.rs and the composition of two products.
use mettle.Base.{
  subst, ◌+◌, ◌-◌, ℕ, zero, suc, ◌<◌, ◌≡◌, refl, sym, ap, ◌∙◌, arith, Bool, true, false, Bool-cases,
  ◌&&◌, ◌||◌, ◌==◌, ==_iff, ltb, leb, [], ◌∷◌, ◌++◌, some, length, take, replicate, ◌↔◌, inl, inr,
}
use mettle.World.{SigId, ResolvedWorld, is_same_or_descendent}
use mettle.World.Hierarchy.{Hierarchy}
use mettle.Ty.{Product, product_subtype, col_meet}
use mettle.Ty.Meet.{IsInhabited, none_headed, le-none, col_meet_lem}
use mettle.Ty.Join.{last_column, join_at, join_products}

-- `v` is `p` and `q` put together, and some sig other than `none` ends `p` in the one and heads `q`
-- in the other.
abbrev pub Composes : ResolvedWorld → (Product → Bool) → (Product → Bool) → Product → Type 0
Composes w f g v =
    (p : Product) × (q : Product) × (x : SigId) × (v ≡ p ++ q)
    × (¬ (x ≡ w.builtins.none_sig))
    × (f (p ++ (x ∷ [])) ≡ true)
    × (g (x ∷ q) ≡ true)

module _ (w : ResolvedWorld) where
  abbrev pub below : Product → Product → Bool
  below e z = product_subtype w z e

  subtype-cons :
      (x c : SigId) (p e : Product)
      → product_subtype w (x ∷ p) (c ∷ e) ≡ (is_same_or_descendent w x c && product_subtype w p e)
  unfolding product_subtype
  subtype-cons x c p e = ground arith

  subtype-snoc :
      (p e : Product) (x l : SigId)
      → product_subtype w (p ++ (x ∷ [])) (e ++ (l ∷ []))
        ≡ (product_subtype w p e && is_same_or_descendent w x l)
  unfolding product_subtype
  subtype-snoc [] [] x l = ground arith
  subtype-snoc [] (c ∷ []) x l = ground arith
  subtype-snoc [] (c ∷ d ∷ e) x l = ground arith
  subtype-snoc (y ∷ []) [] x l = ground arith
  subtype-snoc (y ∷ z ∷ p) [] x l = ground arith
  subtype-snoc (y ∷ p) (c ∷ e) x l =
      rw (subtype-cons y c (p ++ (x ∷ [])) (e ++ (l ∷ [])), subtype-cons y c p e)
        (ground (arith, subtype-snoc p e x l))

  subtype-append :
      (p q a b : Product)
      → product_subtype w p a ≡ true
      → product_subtype w q b ≡ true
      → product_subtype w (p ++ q) (a ++ b) ≡ true
  subtype-append [] q [] b h k = k
  subtype-append [] q (c ∷ a) b h k = absurd (unfold product_subtype in ground (arith, h))
  subtype-append (x ∷ p) q [] b h k = absurd (unfold product_subtype in ground (arith, h))
  subtype-append (x ∷ p) q (c ∷ a) b h k =
      let split = rw (subtype-cons x c p a) at h in
      rw (subtype-cons x c (p ++ q) (a ++ b)) (ground (arith, split, subtype-append p q a b))

  append-subtype :
      (v a b : Product)
      → product_subtype w v (a ++ b) ≡ true
      → (p : Product) × (q : Product) × (v ≡ p ++ q)
        × (product_subtype w p a ≡ true)
        × (product_subtype w q b ≡ true)
  unfolding product_subtype
  append-subtype v [] b h = ([], v, refl, refl, h)
  append-subtype [] (c ∷ a) b h = absurd (unfold product_subtype in ground (arith, h))
  append-subtype (x ∷ v) (c ∷ a) b h =
      let split = rw (subtype-cons x c v (a ++ b)) at h in
      let (p, q, e, k, l) = append-subtype v a b (ground (arith, split)) in
      (x ∷ p, q, ap (λ z. x ∷ z) e, rw (subtype-cons x c p a) (ground (arith, split, k)), l)

-- A product of a column or more is a product and its last column.
split_last : (a : Product) → 0 < length a → (e : Product) × (l : SigId) × (a ≡ e ++ (l ∷ []))
split_last [] h = absurd (omega arith)
split_last (c ∷ []) h = ([], c, refl)
split_last (c ∷ d ∷ a) h =
    let (e, l, k) = split_last (d ∷ a) (omega arith) in (c ∷ e, l, ap (λ z. c ∷ z) k)

last-snoc : (e : Product) (l : SigId) → last_column (e ++ (l ∷ [])) ≡ some l
last-snoc [] l = refl
last-snoc (c ∷ []) l = refl
last-snoc (c ∷ d ∷ e) l = last-snoc (d ∷ e) l

take-snoc : (e : Product) (l : SigId) → take (length (e ++ (l ∷ [])) - 1) (e ++ (l ∷ [])) ≡ e
take-snoc [] l = refl
take-snoc (c ∷ []) l = refl
take-snoc (c ∷ d ∷ e) l =
    let less : suc (length (d ∷ e ++ (l ∷ []))) - 1 ≡ suc (length (d ∷ e ++ (l ∷ [])) - 1) =
      omega arith in
    ap (λ n. take n (c ∷ d ∷ e ++ (l ∷ []))) less ∙ ap (λ z. c ∷ z) (take-snoc (d ∷ e) l)

module _ {w : ResolvedWorld} (h : Hierarchy w) where
  filled-None :
      (n : ℕ) (v : Product)
      → IsInhabited w v
      → product_subtype w v (replicate n w.builtins.none_sig) ≡ false
  filled-None zero v i = none_headed h [] v i refl
  filled-None (suc n) v i = none_headed h (replicate (suc n) w.builtins.none_sig) v i (ground arith)

  -- The product of two entries is below what their columns compose.
  snoc-Composes :
      (e d v : Product) (l c : SigId)
      → IsInhabited w v
      → (leb (length (e ++ (l ∷ []))) 1 && leb (length (c ∷ d)) 1) ≡ false
      → (o : Product) × (join_products w (e ++ (l ∷ [])) (c ∷ d) ≡ some o)
        × ((product_subtype w v o ≡ true)
            ↔ Composes w (below w (e ++ (l ∷ []))) (below w (c ∷ d)) v)
  unfolding join_products join_at
  snoc-Composes e d v l c i wide = elim (Bool-cases (col_meet w l c == w.builtins.none_sig)) [
    | inl z ↦ (
      replicate (length (e ++ (l ∷ [])) + length (c ∷ d) - 2) w.builtins.none_sig,
      rw (wide, last-snoc e l, join_at, z) refl,
      (
        λ g. absurd (cc (g, filled-None (length (e ++ (l ∷ [])) + length (c ∷ d) - 2) v i)),
        λ t. absurd (disjoint z t),
      ),
    )
    | inr z ↦ (
      e ++ d,
      rw (wide, last-snoc e l, join_at, z, take-snoc e l) refl,
      (λ g. meeting z (append-subtype w v e d g), touching),
    )
  ]
    where
      disjoint :
          (col_meet w l c == w.builtins.none_sig) ≡ true
          → Composes w (below w (e ++ (l ∷ []))) (below w (c ∷ d)) v
          → ⊥
      disjoint z (p, q, x, k, n, f, g) =
          let left = rw (subtype-snoc w p e x l) at f in
          let right = rw (subtype-cons w x c q d) at g in
          let meet =
            rw ((==_iff (col_meet w l c) w.builtins.none_sig).0 z) at (col_meet_lem h x l c n) in
          ground (arith, left, right, meet, le-none h x n)

      meeting :
          (col_meet w l c == w.builtins.none_sig) ≡ false
          → (p : Product) × (q : Product) × (v ≡ p ++ q)
            × (product_subtype w p e ≡ true)
            × (product_subtype w q d ≡ true)
          → Composes w (below w (e ++ (l ∷ []))) (below w (c ∷ d)) v
      meeting z (p, q, k, f, g) =
          let n : ¬ (col_meet w l c ≡ w.builtins.none_sig) = λ m. ground (arith, z, m) in
          let meet = col_meet_lem h (col_meet w l c) l c n in
          let self = h.reflexive (col_meet w l c) in
          (
            p,
            q,
            col_meet w l c,
            k,
            n,
            rw (subtype-snoc w p e (col_meet w l c) l) (ground (arith, f, meet, self)),
            rw (subtype-cons w (col_meet w l c) c q d) (ground (arith, g, meet, self)),
          )

      touching :
          Composes w (below w (e ++ (l ∷ []))) (below w (c ∷ d)) v
          → product_subtype w v (e ++ d) ≡ true
      touching (p, q, x, k, n, f, g) =
          let left = rw (subtype-snoc w p e x l) at f in
          let right = rw (subtype-cons w x c q d) at g in
          rw k (subtype-append w p q e d (ground (arith, left)) (ground (arith, right)))

  -- A turn of the inner loop that adds a product.
  pub pair-Composes :
      (a b v : Product)
      → 0 < length a
      → 0 < length b
      → IsInhabited w v
      → (ltb 1 (length a) || ltb 1 (length b)) ≡ true
      → (o : Product) × (join_products w a b ≡ some o)
        × ((product_subtype w v o ≡ true) ↔ Composes w (below w a) (below w b) v)
  pair-Composes a [] v m n i g = absurd (omega (arith, n))
  pair-Composes a (c ∷ d) v m n i g =
      let (e, l, k) = split_last a m in
      subst
        (λ z.
          (leb (length z) 1 && leb (length (c ∷ d)) 1) ≡ false
          → (o : Product) × (join_products w z (c ∷ d) ≡ some o)
            × ((product_subtype w v o ≡ true) ↔ Composes w (below w z) (below w (c ∷ d)) v))
        (sym k) (snoc-Composes e d v l c i) (ground (arith, g))

  subtype-length : (p e : Product) → product_subtype w p e ≡ true → length p ≡ length e
  unfolding product_subtype
  subtype-length p e g = ground (arith, g)

  snoc_positive : (p : Product) (x : SigId) → 0 < length (p ++ (x ∷ []))
  snoc_positive [] x = omega arith
  snoc_positive (c ∷ p) x = omega arith

  -- A turn that adds none.
  pub narrow-Composes :
      (a b v : Product)
      → IsInhabited w v
      → (ltb 1 (length a) || ltb 1 (length b)) ≡ false
      → ¬ Composes w (below w a) (below w b) v
  narrow-Composes a b v i g (y ∷ p, q, x, k, n, f, r) =
      let size = subtype-length (y ∷ p ++ (x ∷ [])) a f in
      ground (arith, g, size, snoc_positive p x)
  narrow-Composes a b v i g ([], z ∷ q, x, k, n, f, r) =
      let size = subtype-length (x ∷ z ∷ q) b r in ground (arith, g, size)
  narrow-Composes a b v i g ([], [], x, k, n, f, r) = omega (arith, i.0, ap length k)
