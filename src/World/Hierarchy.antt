-- ===== src/World/Hierarchy.antt =====
-- The prim sigs of a well-formed world are a forest: the descent is a preorder with `none` least and
-- `univ` greatest, and two sigs with a common descendant are comparable.
use mettle.Base.{
  subst, ℕ, zero, suc, ◌<◌, ◌≡◌, refl, sym, ap, arith, true, false, Bool-cases, ◌==◌, ==_iff, List,
  Option, none, some, length, get_elem?, ◌⊎◌, inl, inr, ◌↔◌,
}
use mettle.World.{
  SigId, SigKind, prim, subset, ResolvedWorld, climb, at_kind, answer, descent_run,
  is_same_or_descendent,
}

-- Each parent is nearer to the root, and no chain is longer than the arena.
pub record IsWellFormed (w : ResolvedWorld) : Type 0 where
  pub depth : SigId → ℕ
  pub shallow : (s : SigId) → depth s < length w.sigs
  pub nearer : (s p : SigId) → get_elem? w.sigs s ≡ some (prim (some p)) → depth p < depth s
  pub kinds : (s p : SigId) → get_elem? w.sigs s ≡ some (prim (some p)) → p < length w.sigs
  pub root : (p : SigId) → ¬ (get_elem? w.sigs w.builtins.univ ≡ some (prim (some p)))
  pub distinct : (w.builtins.univ == w.builtins.none_sig) ≡ false

-- `Above sigs a s`: the chain of parents from `s` meets `a`.
pub data Above (sigs : List SigKind) (a : SigId) : SigId → Type 0 where
  parent : {s : SigId} → get_elem? sigs s ≡ some (prim (some a)) → Above sigs a s
  up : {s p : SigId} → get_elem? sigs s ≡ some (prim (some p)) → Above sigs a p → Above sigs a s

pub Above-trans :
    {sigs : List SigKind} {a b c : SigId} → Above sigs a b → Above sigs b c → Above sigs a c
Above-trans h (parent e) = up e h
Above-trans h (up e k) = up e (Above-trans h k)

-- Two sigs above the same one are comparable.
Above-linear :
    {sigs : List SigKind} {a b x : SigId}
    → Above sigs a x
    → Above sigs b x
    → (a ≡ b) ⊎ (Above sigs a b ⊎ Above sigs b a)
Above-linear (parent e) (parent f) = inl (cc (e, f))
Above-linear {sigs} {b} (parent e) (up f k) = inr (inr (subst (Above sigs b) (cc (e, f)) k))
Above-linear {sigs} {a} (up e h) (parent f) = inr (inl (subst (Above sigs a) (cc (e, f)) h))
Above-linear {sigs} {a} {b} (up e h) (up f k) = Above-linear h (subst (Above sigs b) (cc (e, f)) k)

pub climb→Above :
    (n : ℕ) (sigs : List SigKind) (a s : SigId) → answer (climb n sigs a s) ≡ true → Above sigs a s
unfolding climb
climb→Above zero sigs a s h = absurd (cc h)
climb→Above (suc n) sigs a s h = walk (get_elem? sigs s) refl h (λ p. climb→Above n sigs a p)
  where
    walk :
        (k : Option SigKind)
        → get_elem? sigs s ≡ k
        → answer (at_kind (λ p. climb n sigs a p) a k) ≡ true
        → ((p : SigId) → answer (climb n sigs a p) ≡ true → Above sigs a p)
        → Above sigs a s
    walk none e g rest = absurd (cc g)
    walk (some subset) e g rest = absurd (cc g)
    walk (some (prim none)) e g rest = absurd (cc g)
    walk (some (prim (some p))) e g rest = elim (Bool-cases (p == a)) [
      | inl q ↦ parent (rw ((==_iff p a).0 q) at e)
      | inr q ↦ up e (rest p (rw q at g))
    ]

module _ {w : ResolvedWorld} (valid : IsWellFormed w) where
  Above→climb :
      (n : ℕ) {a s : SigId} → Above w.sigs a s → valid.depth s < n → climb n w.sigs a s ≡ some true
  unfolding climb
  Above→climb zero h k = absurd (omega arith)
  Above→climb (suc n) {a} (parent e) k = rw (e, climb, (==_iff a a).1 refl) refl
  Above→climb (suc n) {a} {s} (up {p} e h) k = elim (Bool-cases (p == a)) [
    | inl q ↦ rw (e, climb, q) refl
    | inr q ↦ rw (e, climb, q) (Above→climb n h (omega (arith, valid.nearer s p e)))
  ]

  Above-iff : (a s : SigId) → (answer (climb (length w.sigs) w.sigs a s) ≡ true) ↔ Above w.sigs a s
  Above-iff a s = (
    climb→Above (length w.sigs) w.sigs a s,
    λ h. ap answer (Above→climb (length w.sigs) h (valid.shallow s)),
  )

-- The laws of the descent that the type algebra rests on.
pub record Hierarchy (w : ResolvedWorld) : Type 0 where
  pub reflexive : (a : SigId) → is_same_or_descendent w a a ≡ true
  pub transitive :
      (a b c : SigId)
      → is_same_or_descendent w a b ≡ true
      → is_same_or_descendent w b c ≡ true
      → is_same_or_descendent w a c ≡ true
  pub least : (a : SigId) → is_same_or_descendent w w.builtins.none_sig a ≡ true
  pub greatest : (a : SigId) → is_same_or_descendent w a w.builtins.univ ≡ true
  pub below_none :
      (a : SigId) → is_same_or_descendent w a w.builtins.none_sig ≡ true → a ≡ w.builtins.none_sig
  pub forest :
      (x a b : SigId)
      → ¬ (x ≡ w.builtins.none_sig)
      → is_same_or_descendent w x a ≡ true
      → is_same_or_descendent w x b ≡ true
      → (is_same_or_descendent w a b ≡ true) ⊎ (is_same_or_descendent w b a ≡ true)

-- What the test decides, by its three shortcuts and the chain.
unfoldable pub Descends : ResolvedWorld → SigId → SigId → Type 0
Descends w sub sup =
    (sub ≡ sup)
    ⊎ ((sup ≡ w.builtins.univ)
        ⊎ ((sub ≡ w.builtins.none_sig)
            ⊎ ((¬ (sub ≡ w.builtins.univ))
                × (¬ (sup ≡ w.builtins.none_sig))
                × Above w.sigs sup sub)))

module _ {w : ResolvedWorld} (valid : IsWellFormed w) where
  Descends-iff : (sub sup : SigId) → (is_same_or_descendent w sub sup ≡ true) ↔ Descends w sub sup
  unfolding Descends is_same_or_descendent descent_run
  Descends-iff sub sup = ground (arith, Above-iff valid sup sub)

  Descends-trans : (a b c : SigId) → Descends w a b → Descends w b c → Descends w a c
  unfolding Descends
  Descends-trans a b c (inl e) k = subst (λ x. Descends w x c) (sym e) k
  Descends-trans a b c h (inl e) = subst (λ x. Descends w a x) e h
  Descends-trans a b c (inr (inl e)) (inr k) = ground (arith, valid.distinct)
  Descends-trans a b c (inr (inr (inl e))) (inr k) = inr (inr (inl e))
  Descends-trans a b c (inr (inr (inr h))) (inr (inl e)) = inr (inl e)
  Descends-trans a b c (inr (inr (inr h))) (inr (inr (inl e))) = absurd (h.1 e)
  Descends-trans a b c (inr (inr (inr h))) (inr (inr (inr k))) =
      inr (inr (inr (h.0, k.1, Above-trans k.2 h.2)))

  no_parent : {y : SigId} → Above w.sigs y w.builtins.univ → ⊥
  no_parent {y} (parent e) = valid.root y e
  no_parent (up {p} e h) = valid.root p e

  Descends-forest :
      (x a b : SigId)
      → ¬ (x ≡ w.builtins.none_sig)
      → Descends w x a
      → Descends w x b
      → Descends w a b ⊎ Descends w b a
  unfolding Descends
  Descends-forest x a b n (inl e) k = inl (subst (λ y. Descends w y b) e k)
  Descends-forest x a b n (inr (inl e)) k = inr (inr (inl e))
  Descends-forest x a b n (inr (inr (inl e))) k = absurd (n e)
  Descends-forest x a b n h (inl e) = inr (subst (λ y. Descends w y a) e h)
  Descends-forest x a b n h (inr (inl e)) = inl (inr (inl e))
  Descends-forest x a b n h (inr (inr (inl e))) = absurd (n e)
  Descends-forest x a b n (inr (inr (inr h))) (inr (inr (inr k))) = elim (Above-linear h.2 k.2) [
    | inl e ↦ inl (inl e)
    | inr (inl p) ↦ inr (below p h.1)
    | inr (inr p) ↦ inl (below p k.1)
  ]
    where
      below : {y z : SigId} → Above w.sigs y z → ¬ (y ≡ w.builtins.none_sig) → Descends w z y
      below {y} {z} p ny = inr (inr (inr ((λ e. no_parent (subst (Above w.sigs y) e p)), ny, p)))

-- In a well-formed world, is_same_or_descendent is reflexive and transitive, none is least and
-- alone below itself, univ is greatest, and two sigs with a common descendant other than none are
-- comparable.
pub hierarchy : (w : ResolvedWorld) → IsWellFormed w → Hierarchy w
unfolding Descends
hierarchy w valid = record {
  reflexive = λ a. (Descends-iff valid a a).1 (inl refl);
  transitive = λ a b c h k.
      (Descends-iff valid a c).1
        (Descends-trans valid a b c ((Descends-iff valid a b).0 h) ((Descends-iff valid b c).0 k));
  least = λ a. (Descends-iff valid _ a).1 (inr (inr (inl refl)));
  greatest = λ a. (Descends-iff valid a _).1 (inr (inl refl));
  below_none = λ a h. nothing_below a ((Descends-iff valid a w.builtins.none_sig).0 h);
  forest = λ x a b n h k.
      elim (Descends-forest valid x a b n ((Descends-iff valid x a).0 h)
        ((Descends-iff valid x b).0 k)) [
          | inl d ↦ inl ((Descends-iff valid a b).1 d)
          | inr d ↦ inr ((Descends-iff valid b a).1 d)
        ];
}
  where
    nothing_below : (a : SigId) → Descends w a w.builtins.none_sig → a ≡ w.builtins.none_sig
    nothing_below a (inl e) = e
    nothing_below a (inr (inl e)) = ground (arith, valid.distinct)
    nothing_below a (inr (inr (inl e))) = e
    nothing_below a (inr (inr (inr h))) = absurd (h.1 refl)
