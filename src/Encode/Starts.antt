-- ===== src/Encode/Starts.antt =====
-- The cells of a matrix by first atom, and the merge of one matrix into another.
use mettle.Base.{
  ℕ, ◌+◌, ◌≤◌, ◌<◌, ◌≡◌, refl, ap, ◌∙◌, arith, Bool, true, false, ◌&&◌, ◌||◌, ◌==◌, ltb,
  if◌then◌else◌, List, [], ◌∷◌, Option, some, length, any, All, All-map, All-append, Bool-cases,
  inl, inr,
}
use mettle.Circuit.{CircuitBool}
use mettle.Circuit.Model.{IsMintedBool}
use mettle.Bounds.{AtomId, Tuple}
use mettle.Eval.Members.{any-append}
use mettle.Eval.Override.{starts_with}
use mettle.Encode.{add_term, group_starts}

abbrev pub Dom : Type 0
Dom = List (AtomId × List CircuitBool)

abbrev IsSorted : Dom → Type 0
IsSorted [] = Unit
IsSorted (g ∷ dom) = All (λ (h : AtomId × List CircuitBool). g.0 < h.0) dom × IsSorted dom

-- The terms of an atom.
abbrev pub terms_at : AtomId → Dom → List CircuitBool
terms_at x [] = []
terms_at x ((y, vs) ∷ dom) = let rest = terms_at x dom in if x == y then vs else rest

abbrev pub AreTerms : ℕ → Dom → Type 0
AreTerms n dom = All (λ (g : AtomId × List CircuitBool). All (IsMintedBool n) g.1) dom

no_terms :
    (x : AtomId) (dom : Dom)
    → All (λ (h : AtomId × List CircuitBool). x < h.0) dom
    → terms_at x dom ≡ []
no_terms x [] h = refl
no_terms x (g ∷ dom) h = ground (arith, no_terms x dom h.1)

add_term-later :
    (y x : AtomId) (v : CircuitBool) (dom : Dom)
    → y < x
    → All (λ (h : AtomId × List CircuitBool). y < h.0) dom
    → All (λ (h : AtomId × List CircuitBool). y < h.0) (add_term x v dom)
unfolding add_term
add_term-later y x v [] b h = (b, tt)
add_term-later y x v (g ∷ dom) b h = elim (Bool-cases (x == g.0)) [
  | inl e ↦ rw e h
  | inr e ↦ elim (Bool-cases (ltb x g.0)) [
    | inl k ↦ rw (e, k) (b, h)
    | inr k ↦ rw (e, k) (h.0, add_term-later y x v dom b h.1)
  ]
]

add_term-IsSorted :
    (x : AtomId) (v : CircuitBool) (dom : Dom) → IsSorted dom → IsSorted (add_term x v dom)
unfolding add_term
add_term-IsSorted x v [] h = (tt, tt)
add_term-IsSorted x v (g ∷ dom) h = elim (Bool-cases (x == g.0)) [
  | inl e ↦ rw e h
  | inr e ↦ elim (Bool-cases (ltb x g.0)) [
    | inl k ↦
        let b : x < g.0 = ground arith in
        rw (e, k)
          (
            (
              b,
              All-map (λ (h : AtomId × List CircuitBool). g.0 < h.0)
                  (λ (h : AtomId × List CircuitBool). x < h.0) dom (λ d p. omega arith) h.0,
            ),
            h,
          )
    | inr k ↦
        rw (e, k) (add_term-later g.0 x v dom (ground arith) h.0, add_term-IsSorted x v dom h.1)
  ]
]

add_term-AreTerms :
    (n : ℕ) (x : AtomId) (v : CircuitBool) (dom : Dom)
    → IsMintedBool n v
    → AreTerms n dom
    → AreTerms n (add_term x v dom)
unfolding add_term
add_term-AreTerms n x v [] m h = ((m, tt), tt)
add_term-AreTerms n x v (g ∷ dom) m h = elim (Bool-cases (x == g.0)) [
  | inl e ↦ rw e (All-append (IsMintedBool n) g.1 (v ∷ []) h.0 (m, tt), h.1)
  | inr e ↦ elim (Bool-cases (ltb x g.0)) [
    | inl k ↦ rw (e, k) ((m, tt), h)
    | inr k ↦ rw (e, k) (h.0, add_term-AreTerms n x v dom m h.1)
  ]
]

add_term-length :
    (x : AtomId) (v : CircuitBool) (dom : Dom) → length (add_term x v dom) ≤ 1 + length dom
unfolding add_term
add_term-length x v [] = omega arith
add_term-length x v (g ∷ dom) = elim (Bool-cases (x == g.0)) [
  | inl e ↦ rw e (omega arith)
  | inr e ↦ elim (Bool-cases (ltb x g.0)) [
    | inl k ↦ rw (e, k) (omega arith)
    | inr k ↦ rw (e, k) (omega (arith, add_term-length x v dom))
  ]
]

add_term_lem :
    (V : CircuitBool → Bool) (x y : AtomId) (v : CircuitBool) (dom : Dom)
    → IsSorted dom
    → any (terms_at y (add_term x v dom)) V ≡ (any (terms_at y dom) V || ((x == y) && V v))
unfolding add_term
add_term_lem V x y v [] h = ground arith
add_term_lem V x y v (g ∷ dom) h = elim (Bool-cases (x == g.0)) [
  | inl e ↦ rw e (ground (arith, any-append g.1 (v ∷ []) V))
  | inr e ↦ elim (Bool-cases (ltb x g.0)) [
    | inl k ↦
        let none_here : terms_at x (g ∷ dom) ≡ [] = no_terms x (g ∷ dom) (
          (ground arith),
          All-map (λ (h : AtomId × List CircuitBool). g.0 < h.0)
              (λ (h : AtomId × List CircuitBool). x < h.0) dom (λ d p. ground arith) h.0,
        ) in
        rw (e, k) (at_new (y == x) refl none_here)
    | inr k ↦ rw (e, k) (ground (arith, add_term_lem V x y v dom h.1))
  ]
]
  where
    at_new :
        (c : Bool)
        → (y == x) ≡ c
        → terms_at x (g ∷ dom) ≡ []
        → any (if c then v ∷ [] else terms_at y (g ∷ dom)) V
          ≡ (any (terms_at y (g ∷ dom)) V || ((x == y) && V v))
    at_new true q z =
        let w : any (terms_at y (g ∷ dom)) V ≡ false =
          ap (λ i. any (terms_at i (g ∷ dom)) V) (ground arith) ∙ ap (λ l. any l V) z in
        rw w (ground arith)
    at_new false q z = ground arith

pub record Starts (n : ℕ) (dom : Dom) (o : Option Dom) (cells : List (Tuple × CircuitBool))
    : Type 0 where
  pub groups : Dom
  pub returns : o ≡ some groups
  pub minted : AreTerms n groups
  pub cost : length groups ≤ length cells + length dom
  pub members :
      (V : CircuitBool → Bool) (x : AtomId)
      → any (terms_at x groups) V
        ≡ (any (terms_at x dom) V || any cells (λ d. starts_with x d.0 && V d.1))

pub group_starts_lem :
    (n : ℕ) (cells : List (Tuple × CircuitBool)) (dom : Dom)
    → All (λ d. (0 < length d.0) × IsMintedBool n d.1) cells
    → IsSorted dom
    → AreTerms n dom
    → Starts n dom (group_starts cells dom) cells
unfolding group_starts
group_starts_lem n [] dom h o m = record {
  groups = dom;
  returns = refl;
  minted = m;
  cost = omega arith;
  members = λ V x. ground arith;
}
group_starts_lem n (([], v) ∷ cells) dom h o m = absurd (omega (arith, h.0.0))
group_starts_lem n ((x ∷ t, v) ∷ cells) dom h o m =
    let more =
      group_starts_lem n cells (add_term x v dom) h.1 (add_term-IsSorted x v dom o)
        (add_term-AreTerms n x v dom h.0.1 m) in
    record {
      groups = more.groups;
      returns = more.returns;
      minted = more.minted;
      cost = omega (arith, more.cost, add_term-length x v dom);
      members = λ V y. ground (arith, more.members V y, add_term_lem V x y v dom o);
    }
