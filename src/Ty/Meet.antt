-- ===== src/Ty/Meet.antt =====
-- The intersection of types is their meet: it covers what both cover.
use mettle.Base.{
  fun_ext, ℕ, zero, suc, ◌<◌, ◌≡◌, refl, ap, ◌∙◌, arith, Bool, true, false, Bool-cases, ◌&&◌, ◌==◌,
  ==_iff, List, [], ◌∷◌, Option, none, some, length, any, All, inl, inr,
}
use mettle.World.{SigId, ResolvedWorld, is_same_or_descendent}
use mettle.World.Hierarchy.{Hierarchy}
use mettle.Ty.{
  Product, RelType, product_subtype, all_columns, is_empty, col_meet, push_col, meet_loop,
  or_none_filled, meet_columns, some_if, intersect, empty,
}
use mettle.Ty.Covers.{covers, covers_option, add_pairs-covers}

-- A product that can have a tuple.
abbrev pub IsInhabited : ResolvedWorld → Product → Type 0
IsInhabited w q = (0 < length q) × All (λ c. ¬ (c ≡ w.builtins.none_sig)) q

module _ {w : ResolvedWorld} (h : Hierarchy w) where
  pub le-none :
      (x : SigId)
      → ¬ (x ≡ w.builtins.none_sig)
      → is_same_or_descendent w x w.builtins.none_sig ≡ false
  le-none x n = elim (Bool-cases (is_same_or_descendent w x w.builtins.none_sig)) [
    | inl e ↦ absurd (n (h.below_none x e))
    | inr e ↦ e
  ]

  pub col_meet_lem :
      (x a b : SigId)
      → ¬ (x ≡ w.builtins.none_sig)
      → is_same_or_descendent w x (col_meet w a b)
        ≡ (is_same_or_descendent w x a && is_same_or_descendent w x b)
  unfolding col_meet
  col_meet_lem x a b n =
      ground (arith, le-none x n, h.forest x a b n, h.transitive x a b, h.transitive x b a)

  abbrev below : Product → Product → Bool
  below p q = all_columns (λ a b. is_same_or_descendent w a b) p q

  -- What the loop's answer says of the columns of `q`.
  abbrev below_answer : Product → Option Product → Bool
  below_answer q none = false
  below_answer q (some cols) = below q cols

  push_col_lem :
      (x c : SigId) (q : Product) (o : Option Product)
      → ¬ (x ≡ w.builtins.none_sig)
      → below_answer (x ∷ q) (push_col w c o) ≡ (is_same_or_descendent w x c && below_answer q o)
  push_col_lem x c q none n = ground arith
  push_col_lem x c q (some cols) n = ground (arith, le-none x n)

  meet_loop_lem :
      (a b q : Product)
      → length a ≡ length b
      → length q ≡ length a
      → All (λ c. ¬ (c ≡ w.builtins.none_sig)) q
      → below_answer q (meet_loop w a b) ≡ (below q a && below q b)
  unfolding meet_loop
  meet_loop_lem [] [] [] e k n = refl
  meet_loop_lem [] (y ∷ b) q e k n = absurd (omega arith)
  meet_loop_lem (x ∷ a) [] q e k n = absurd (omega arith)
  meet_loop_lem [] [] (z ∷ q) e k n = absurd (omega arith)
  meet_loop_lem (x ∷ a) (y ∷ b) [] e k n = absurd (omega arith)
  meet_loop_lem (x ∷ a) (y ∷ b) (z ∷ q) e k n =
      let rest = meet_loop_lem a b q (omega arith) (omega arith) n.1 in
      let step = push_col_lem z (col_meet w x y) q (meet_loop w a b) n.0 in
      ground (arith, rest, step, col_meet_lem z x y n.0)

  abbrev IsSized : ℕ → Option Product → Type 0
  IsSized n none = Unit
  IsSized n (some cols) = length cols ≡ n

  push_col-IsSized :
      (n : ℕ) (c : SigId) (o : Option Product) → IsSized n o → IsSized (suc n) (push_col w c o)
  push_col-IsSized n c none k = tt
  push_col-IsSized n c (some cols) k = elim (Bool-cases (c == w.builtins.none_sig)) [
    | inl e ↦ rw e tt
    | inr e ↦ rw e (ap suc k)
  ]

  meet_loop-IsSized : (a b : Product) → length a ≡ length b → IsSized (length a) (meet_loop w a b)
  unfolding meet_loop
  meet_loop-IsSized [] b e = refl
  meet_loop-IsSized (x ∷ a) [] e = absurd (omega arith)
  meet_loop-IsSized (x ∷ a) (y ∷ b) e =
      push_col-IsSized (length a) (col_meet w x y) (meet_loop w a b)
        (meet_loop-IsSized a b (omega arith))

  -- No product that can have a tuple is below one that is headed by `none`.
  pub none_headed :
      (a q : Product) → IsInhabited w q → is_empty w a ≡ true → product_subtype w q a ≡ false
  unfolding product_subtype
  none_headed [] [] i g = absurd (omega (arith, i.0))
  none_headed [] (x ∷ q) i g = ground arith
  none_headed (c ∷ a) [] i g = absurd (omega (arith, i.0))
  none_headed (c ∷ a) (x ∷ q) i g = ground (arith, le-none x i.1.0)

  some_columns : (a : Product) → is_empty w a ≡ false → 0 < length a
  some_columns [] g = absurd (cc g)
  some_columns (c ∷ a) g = omega arith

  filled-Sized :
      (n : ℕ) (q : Product) (o : Option Product)
      → IsSized n o
      → 0 < n
      → IsInhabited w q
      → product_subtype w q (or_none_filled w n o) ≡ ((length q == n) && below_answer q o)
  unfolding product_subtype
  filled-Sized zero q none k m i = absurd (omega arith)
  filled-Sized (suc n) [] none k m i = absurd (omega (arith, i.0))
  filled-Sized (suc n) (x ∷ q) none k m i = ground (arith, le-none x i.1.0)
  filled-Sized n q (some cols) k m i = rw k refl

  meet_columns_lem :
      (a b q : Product)
      → length a ≡ length b
      → IsInhabited w q
      → product_subtype w q (meet_columns w a b) ≡ (product_subtype w q a && product_subtype w q b)
  unfolding meet_columns product_subtype
  meet_columns_lem a b q e i = elim (Bool-cases (is_empty w a)) [
    | inl g ↦ rw g (ground (arith, none_headed a q i g))
    | inr g ↦ elim (Bool-cases (is_empty w b)) [
      | inl k ↦ rw (g, k) (ground (arith, none_headed b q i k))
      | inr k ↦
          rw (g, k)
            (filled-Sized (length a) q (meet_loop w a b) (meet_loop-IsSized a b e)
                (some_columns a g) i
              ∙ same_lengths (λ z. meet_loop_lem a b q e z i.1))
    ]
  ]
    where
      same_lengths :
          (length q ≡ length a → below_answer q (meet_loop w a b) ≡ (below q a && below q b))
          → ((length q == length a) && below_answer q (meet_loop w a b))
            ≡ (product_subtype w q a && product_subtype w q b)
      same_lengths k = ground arith

  pair-covers :
      (a b q : Product)
      → IsInhabited w q
      → covers_option w (some_if (length a == length b) (meet_columns w a b)) q
        ≡ (product_subtype w q a && product_subtype w q b)
  unfolding product_subtype
  pair-covers a b q i = elim (Bool-cases (length a == length b)) [
    | inl e ↦ rw e (meet_columns_lem a b q ((==_iff (length a) (length b)).0 e) i)
    | inr e ↦ rw e (ground arith)
  ]

any-and :
    {A : Type 0} (x : Bool) (f : A → Bool) (bs : List A) → any bs (λ b. x && f b) ≡ (x && any bs f)
any-and true f [] = refl
any-and false f [] = refl
any-and x f (b ∷ bs) = ground (arith, any-and x f bs)

any_both :
    {A : Type 0} (f g : A → Bool) (xs bs : List A)
    → any xs (λ a. any bs (λ b. f a && g b)) ≡ (any xs f && any bs g)
any_both f g [] bs = refl
any_both f g (x ∷ xs) bs = ground (arith, any-and (f x) g bs, any_both f g xs bs)

-- In a world whose sigs are a forest, and for a product with a column or more and no column none,
-- the intersection of two types covers the product exactly when both types cover it.
pub intersect-covers :
    (w : ResolvedWorld)
    → Hierarchy w
    → (t u : RelType) (q : Product) → IsInhabited w q
    → covers w (intersect w t u) q ≡ (covers w t q && covers w u q)
unfolding intersect
intersect-covers w h t u q i =
    add_pairs-covers h (λ a b. some_if (length a == length b) (meet_columns w a b)) empty t.entries
      u.entries q i.0
    ∙ (unfold empty in
        ap (λ f. any t.entries (λ a. any u.entries (f a)))
          (fun_ext (λ a. fun_ext (λ b. pair-covers h a b q i)))
        ∙ any_both (λ e. product_subtype w q e) (λ e. product_subtype w q e) t.entries u.entries)
