-- ===== src/Circuit/Canonical.antt =====
-- The canonical operand list of a conjunction: sorting, removing duplicates and the search for a
-- literal beside its negation keep the conjunction's value.
use mettle.Base.{
  ◌≡◌, refl, sym, ap, ◌∙◌, Bool, true, false, not, ◌&&◌, Bool-cases, List, [], ◌∷◌, all, All, ◌==◌,
  leb, ==_iff, inl, inr,
}
use mettle.Solve.{Lit, lit_not}
use mettle.Solve.Models.{Valuation, lit_value, lit_value-not}
use mettle.Circuit.{insert_sorted, sort, dedup_from, dedup, has_clash, canonical}

abbrev pub conj : Valuation → List Lit → Bool
conj ρ ls = all ls (lit_value ρ)

and_swap : (a b c : Bool) → (a && (b && c)) ≡ (b && (a && c))
and_swap true b c = refl
and_swap false true c = refl
and_swap false false c = refl

and_twice : (a b : Bool) → (a && (a && b)) ≡ (a && b)
and_twice true b = refl
and_twice false b = refl

conj-insert_sorted :
    (ρ : Valuation) (l : Lit) (ls : List Lit) → conj ρ (insert_sorted l ls) ≡ conj ρ (l ∷ ls)
unfolding insert_sorted
conj-insert_sorted ρ l [] = refl
conj-insert_sorted ρ l (m ∷ ms) = elim (Bool-cases (leb l m)) [
  | inl e ↦ rw e
  | inr e ↦ rw e (
      ap (λ b. lit_value ρ m && b) (conj-insert_sorted ρ l ms)
      ∙ and_swap (lit_value ρ m) (lit_value ρ l) (conj ρ ms))
]

conj-sort : (ρ : Valuation) (ls : List Lit) → conj ρ (sort ls) ≡ conj ρ ls
unfolding sort
conj-sort ρ [] = refl
conj-sort ρ (l ∷ ls) =
    conj-insert_sorted ρ l (sort ls) ∙ ap (λ b. lit_value ρ l && b) (conj-sort ρ ls)

conj-dedup_from :
    (ρ : Valuation) (l : Lit) (ls : List Lit)
    → (lit_value ρ l && conj ρ (dedup_from l ls)) ≡ (lit_value ρ l && conj ρ ls)
unfolding dedup_from
conj-dedup_from ρ l [] = refl
conj-dedup_from ρ l (m ∷ ms) = elim (Bool-cases (l == m)) [
  | inl e ↦
      let q : l ≡ m = (==_iff l m).0 e in
      rw e (conj-dedup_from ρ l ms ∙ sym (rw (← q) (and_twice (lit_value ρ l) (conj ρ ms))))
  | inr e ↦ rw e (ap (λ b. lit_value ρ l && b) (conj-dedup_from ρ m ms))
]

conj-dedup : (ρ : Valuation) (ls : List Lit) → conj ρ (dedup ls) ≡ conj ρ ls
unfolding dedup
conj-dedup ρ [] = refl
conj-dedup ρ (l ∷ ls) = conj-dedup_from ρ l ls

pub conj-canonical : (ρ : Valuation) (ls : List Lit) → conj ρ (canonical ls) ≡ conj ρ ls
unfolding canonical
conj-canonical ρ ls = conj-dedup ρ (sort ls) ∙ conj-sort ρ ls

clash : (b r : Bool) → (b && (not b && r)) ≡ false
clash true r = refl
clash false r = refl

pub has_clash-conj : (ρ : Valuation) (ls : List Lit) → has_clash ls ≡ true → conj ρ ls ≡ false
unfolding has_clash
has_clash-conj ρ [] h = cc
has_clash-conj ρ (l ∷ []) h = cc
has_clash-conj ρ (l ∷ m ∷ ms) h = elim (Bool-cases (lit_not l == m)) [
  | inl e ↦
      let q : lit_not l ≡ m = (==_iff (lit_not l) m).0 e in
      rw (← q, lit_value-not) (clash (lit_value ρ l) (conj ρ ms))
  | inr e ↦
      ap (λ b. lit_value ρ l && b) (has_clash-conj ρ (m ∷ ms) (rw e at h))
      ∙ and_false (lit_value ρ l)
]
  where
    and_false : (b : Bool) → (b && false) ≡ false
    and_false true = refl
    and_false false = refl

All-insert_sorted :
    (P : Lit → Type 0) (l : Lit) (ls : List Lit) → P l → All P ls → All P (insert_sorted l ls)
unfolding insert_sorted
All-insert_sorted P l [] p h = (p, tt)
All-insert_sorted P l (m ∷ ms) p h = elim (Bool-cases (leb l m)) [
  | inl e ↦ rw e (p, (h.0, h.1))
  | inr e ↦ rw e (h.0, All-insert_sorted P l ms p h.1)
]

All-sort : (P : Lit → Type 0) (ls : List Lit) → All P ls → All P (sort ls)
unfolding sort
All-sort P [] h = tt
All-sort P (l ∷ ls) h = All-insert_sorted P l (sort ls) h.0 (All-sort P ls h.1)

All-dedup_from : (P : Lit → Type 0) (l : Lit) (ls : List Lit) → All P ls → All P (dedup_from l ls)
unfolding dedup_from
All-dedup_from P l [] h = tt
All-dedup_from P l (m ∷ ms) h = elim (Bool-cases (l == m)) [
  | inl e ↦ rw e (All-dedup_from P l ms h.1)
  | inr e ↦ rw e (h.0, All-dedup_from P m ms h.1)
]

pub All-canonical : (P : Lit → Type 0) (ls : List Lit) → All P ls → All P (canonical ls)
unfolding canonical dedup
All-canonical P ls h = go (sort ls) (All-sort P ls h)
  where
    go : (ms : List Lit) → All P ms → All P (dedup ms)
    go [] k = tt
    go (m ∷ ms) k = (k.0, All-dedup_from P m ms k.1)
