-- ===== src/World/Descent.antt =====
-- The walk up the parents in crates/als-types/src/world.rs, where these stay in the arena and have no
-- cycle: how long it is, and what it answers.
use mettle.Base.{
  subst, sym, ap, ℕ, zero, suc, ◌+◌, ◌≤◌, ◌<◌, ◌≡◌, refl, arith, Bool, true, false, Bool-cases,
  ◌==◌, ◌||◌, ==_iff, List, [], ◌∷◌, Option, none, some, length, get_elem?, All, retain, not, ◌↔◌,
  inl, inr,
}
use mettle.World.{SigId, SigKind, prim, subset, ResolvedWorld, climb, at_kind, answer, descent_run}
use mettle.World.Hierarchy.{Above, parent, up, Above-trans, climb→Above, Descends}

-- A sig has its parent in the arena, and no sig is above itself.
pub record IsAcyclic (w : ResolvedWorld) : Type 0 where
  pub closed : (s p : SigId) → get_elem? w.sigs s ≡ some (prim (some p)) → p < length w.sigs
  pub acyclic : (s : SigId) → ¬ Above w.sigs s s

abbrev Apart : List ℕ → Type 0
Apart [] = Unit
Apart (x ∷ xs) = All (λ y. ¬ (x ≡ y)) xs × Apart xs

unfoldable without : ℕ → List ℕ → List ℕ
without n xs = retain (λ y. not (y == n)) xs

All-without : (P : ℕ → Type 0) (n : ℕ) (xs : List ℕ) → All P xs → All P (without n xs)
unfolding without
All-without P n [] h = tt
All-without P n (x ∷ xs) h = elim (Bool-cases (x == n)) [
  | inl e ↦ rw e (All-without P n xs h.1)
  | inr e ↦ rw e (h.0, All-without P n xs h.1)
]

Apart-without : (n : ℕ) (xs : List ℕ) → Apart xs → Apart (without n xs)
unfolding without
Apart-without n [] h = tt
Apart-without n (x ∷ xs) h = elim (Bool-cases (x == n)) [
  | inl e ↦ rw e (Apart-without n xs h.1)
  | inr e ↦ rw e (All-without (λ y. ¬ (x ≡ y)) n xs h.0, Apart-without n xs h.1)
]

without_absent : (n : ℕ) (xs : List ℕ) → All (λ y. ¬ (n ≡ y)) xs → length (without n xs) ≡ length xs
unfolding without
without_absent n [] h = refl
without_absent n (x ∷ xs) h = ground (arith, without_absent n xs h.1, h.0)

length-without : (n : ℕ) (xs : List ℕ) → Apart xs → length xs ≤ suc (length (without n xs))
unfolding without
length-without n [] h = omega arith
length-without n (x ∷ xs) h = elim (Bool-cases (x == n)) [
  | inl e ↦
      let absent = without_absent x xs h.0 in rw e (omega (arith, rw ((==_iff x n).0 e) at absent))
  | inr e ↦ rw e (omega (arith, length-without n xs h.1))
]

below_without : (n : ℕ) (xs : List ℕ) → All (λ y. y < suc n) xs → All (λ y. y < n) (without n xs)
unfolding without
below_without n [] h = tt
below_without n (x ∷ xs) h = elim (Bool-cases (x == n)) [
  | inl e ↦ rw e (below_without n xs h.1)
  | inr e ↦ rw e (ground (arith, h.0), below_without n xs h.1)
]

-- Different numbers below n are at most n.
pigeonhole : (n : ℕ) (xs : List ℕ) → Apart xs → All (λ y. y < n) xs → length xs ≤ n
pigeonhole zero [] a h = omega arith
pigeonhole zero (x ∷ xs) a h = absurd (omega (arith, h.0))
pigeonhole (suc n) xs a h = omega (
  arith,
  length-without n xs a,
  pigeonhole n (without n xs) (Apart-without n xs a) (below_without n xs h),
)

get_elem-Some : {A : Type 0} (xs : List A) (i : ℕ) → i < length xs → get_elem? xs i ≡ none → ⊥
get_elem-Some [] i h e = omega arith
get_elem-Some (x ∷ xs) zero h e = cc e
get_elem-Some (x ∷ xs) (suc i) h e = get_elem-Some xs i (omega arith) e

climb-false :
    (n : ℕ) (sigs : List SigKind) (a s : SigId) → climb n sigs a s ≡ some false → Above sigs a s → ⊥
unfolding climb
climb-false zero sigs a s h k = cc h
climb-false (suc n) sigs a s h (parent e) = cc (rw (e, (==_iff a a).1 refl) at h)
climb-false (suc n) sigs a s h (up {p} e k) = elim (Bool-cases (p == a)) [
  | inl q ↦ cc (rw (e, q) at h)
  | inr q ↦ climb-false n sigs a p (rw (e, q) at h) k
]

module _ {w : ResolvedWorld} (valid : IsAcyclic w) where
  not_visited :
      (s : SigId) (visited : List SigId)
      → All (λ v. Above w.sigs s v) visited
      → All (λ v. ¬ (s ≡ v)) visited
  not_visited s [] h = tt
  not_visited s (v ∷ visited) h =
      (λ e. valid.acyclic s (subst (Above w.sigs s) (sym e) h.0), not_visited s visited h.1)

  parent-All :
      (s p : SigId) (visited : List SigId)
      → Above w.sigs p s
      → All (λ v. Above w.sigs s v) visited
      → All (λ v. Above w.sigs p v) visited
  parent-All s p [] e h = tt
  parent-All s p (v ∷ visited) e h = (Above-trans e h.0, parent-All s p visited e h.1)

  -- The sigs of the walk so far are different ones of the arena, so the fuel lasts.
  climb_ends :
      (n : ℕ) (a s : SigId) (visited : List SigId)
      → s < length w.sigs
      → Apart visited
      → All (λ v. v < length w.sigs) visited
      → All (λ v. Above w.sigs s v) visited
      → length w.sigs ≤ n + length visited
      → (b : Bool) × (climb n w.sigs a s ≡ some b)
  unfolding climb
  climb_ends zero a s visited i d r u f = absurd (
      omega
        (arith, f, pigeonhole (length w.sigs) (s ∷ visited) (not_visited s visited u, d) (i, r)))
  climb_ends (suc n) a s visited i d r u f = walk (get_elem? w.sigs s) refl (λ p e.
      climb_ends n a p (s ∷ visited) (valid.closed s p e) (not_visited s visited u, d) (i, r)
        (parent e, parent-All s p visited (parent e) u) (omega (arith, f)))
    where
      walk :
          (o : Option SigKind)
          → get_elem? w.sigs s ≡ o
          → ((p : SigId)
              → get_elem? w.sigs s ≡ some (prim (some p))
              → (b : Bool) × (climb n w.sigs a p ≡ some b))
          → (b : Bool) × (at_kind (λ p. climb n w.sigs a p) a o ≡ some b)
      walk none e rest = absurd (get_elem-Some w.sigs s i e)
      walk (some subset) e rest = (false, refl)
      walk (some (prim none)) e rest = (false, refl)
      walk (some (prim (some p))) e rest = elim (Bool-cases (p == a)) [
        | inl q ↦ (true, rw q refl)
        | inr q ↦ rw q (rest p e)
      ]

  -- With the arena's length as fuel, the walk decides the chain.
  climb_decides :
      (a s : SigId)
      → s < length w.sigs
      → (b : Bool) × (climb (length w.sigs) w.sigs a s ≡ some b) × ((b ≡ true) ↔ Above w.sigs a s)
  climb_decides a s i =
      let (b, e) = climb_ends (length w.sigs) a s [] i tt tt tt (omega arith) in
      (b, e, answered b e)
    where
      answered :
          (b : Bool) → climb (length w.sigs) w.sigs a s ≡ some b → (b ≡ true) ↔ Above w.sigs a s
      answered true e = (λ _. climb→Above (length w.sigs) w.sigs a s (ap answer e), λ _. refl)
      answered false e =
          (λ k. absurd (cc k), λ k. absurd (climb-false (length w.sigs) w.sigs a s e k))

-- Where each parent is in the arena and no sig is above itself, is_same_or_descendent of a sig of
-- the arena returns, and its answer is true exactly when the two are equal, the second is univ,
-- the first is none, or the first is not univ, the second is not none and the chain of parents
-- from the first meets the second.
pub descent_run_lem :
    (w : ResolvedWorld) (sub sup : SigId)
    → IsAcyclic w
    → sub < length w.sigs
    → (b : Bool) × (descent_run w sub sup ≡ some b) × ((b ≡ true) ↔ Descends w sub sup)
unfolding descent_run Descends
descent_run_lem w sub sup valid i =
    let (b, e, d) = climb_decides valid sup sub i in
    elim (Bool-cases ((sub == sup) || ((sup == w.builtins.univ) || (sub == w.builtins.none_sig)))) [
      | inl g ↦ (true, rw g refl, ground (arith, g))
      | inr g ↦ elim (Bool-cases ((sub == w.builtins.univ) || (sup == w.builtins.none_sig))) [
        | inl k ↦ (false, rw (g, k) refl, ground (arith, g, k))
        | inr k ↦ (b, rw (g, k) e, ground (arith, g, k, d))
      ]
    ]
