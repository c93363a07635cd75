-- ===== src/Circuit/Cache.antt =====
-- The gate cache as a map: what is found was stored under that very key.
use mettle.Base.{
  ◌≡◌, refl, ap₂, subst, true, false, ◌&&◌, Bool-cases, List, [], ◌∷◌, some, All, ◌==◌, ==_iff, inl,
  inr,
}
use mettle.Solve.{Lit}
use mettle.Circuit.{GateCache, same_key, get, insert}

pub same_key→eq : (xs ys : List Lit) → same_key xs ys ≡ true → xs ≡ ys
unfolding same_key
same_key→eq [] [] h = refl
same_key→eq [] (y ∷ ys) h = cc
same_key→eq (x ∷ xs) [] h = cc
same_key→eq (x ∷ xs) (y ∷ ys) h = elim (Bool-cases (x == y)) [
  | inl e ↦ ap₂ ◌∷◌ ((==_iff x y).0 e) (same_key→eq xs ys (rw e at h))
  | inr e ↦ absurd (no_entry e h)
]
  where
    no_entry : (x == y) ≡ false → ((x == y) && same_key xs ys) ≡ true → ⊥
    no_entry e k = cc (rw e at k)

pub same_key_refl : (xs : List Lit) → same_key xs xs ≡ true
unfolding same_key
same_key_refl [] = refl
same_key_refl (x ∷ xs) = rw ((==_iff x x).1 refl) (same_key_refl xs)

pub get-All :
    (P : List Lit × Lit → Type 0) (g : GateCache) (k : List Lit) (z : Lit)
    → All P g
    → get g k ≡ some z
    → P (k, z)
unfolding get
get-All P [] k z h e = absurd (cc e)
get-All P ((j, y) ∷ g) k z h e = elim (Bool-cases (same_key j k)) [
  | inl q ↦
      let found : some y ≡ some z = rw q at e in
      let value : y ≡ z = cc in subst P (λ i. (same_key→eq j k q i, value i)) h.0
  | inr q ↦ get-All P g k z h.1 (rw q at e)
]

pub insert-All :
    (P : List Lit × Lit → Type 0) (g : GateCache) (k : List Lit) (z : Lit)
    → All P g
    → P (k, z)
    → All P (insert g k z)
unfolding insert
insert-All P [] k z h p = (p, tt)
insert-All P ((j, y) ∷ g) k z h p = elim (Bool-cases (same_key j k)) [
  | inl q ↦ rw q (p, h.1)
  | inr q ↦ rw q (h.0, insert-All P g k z h.1 p)
]

pub get-insert : (g : GateCache) (k : List Lit) (z : Lit) → get (insert g k z) k ≡ some z
unfolding get insert
get-insert [] k z = rw (same_key_refl k)
get-insert ((j, y) ∷ g) k z = elim (Bool-cases (same_key j k)) [
  | inl q ↦ rw q (rw (same_key_refl k))
  | inr q ↦ rw q (rw q (get-insert g k z))
]
