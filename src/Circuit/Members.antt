-- ===== src/Circuit/Members.antt =====
-- The canonical operand list is the ascending list of the operands, so it is determined by their
-- set.
use mettle.Base.{
  ◌≤◌, ◌<◌, ◌≡◌, refl, sym, ap, ap₂, ◌∙◌, arith, Bool, true, false, ◌||◌, Bool-cases, List, [], ◌∷◌,
  All, All-map, any, ◌==◌, leb, inl, inr,
}
use mettle.Solve.{Lit}
use mettle.Circuit.{insert_sorted, sort, dedup_from, dedup, canonical}

abbrev pub member : Lit → List Lit → Bool
member x ls = any ls (λ m. m == x)

-- Strictly ascending.
abbrev pub Ascending : List Lit → Type 0
Ascending [] = Unit
Ascending (l ∷ ls) = All (λ m. l < m) ls × Ascending ls

abbrev Sorted : List Lit → Type 0
Sorted [] = Unit
Sorted (l ∷ ls) = All (λ m. l ≤ m) ls × Sorted ls

All-le : (l m : Lit) (ls : List Lit) → l ≤ m → All (λ k. m ≤ k) ls → All (λ k. l ≤ k) ls
All-le l m ls h a = All-map (λ k. m ≤ k) (λ k. l ≤ k) ls (λ k p. omega arith) a

All-insert_le :
    (k l : Lit) (ls : List Lit)
    → k ≤ l
    → All (λ m. k ≤ m) ls
    → All (λ m. k ≤ m) (insert_sorted l ls)
unfolding insert_sorted
All-insert_le k l [] h a = (h, tt)
All-insert_le k l (m ∷ ms) h a = elim (Bool-cases (leb l m)) [
  | inl e ↦ rw e (h, a)
  | inr e ↦ rw e (a.0, All-insert_le k l ms h a.1)
]

insert_sorted-Sorted : (l : Lit) (ls : List Lit) → Sorted ls → Sorted (insert_sorted l ls)
unfolding insert_sorted
insert_sorted-Sorted l [] h = (tt, tt)
insert_sorted-Sorted l (m ∷ ms) h = elim (Bool-cases (leb l m)) [
  | inl e ↦ rw e ((ground arith, All-le l m ms (ground arith) h.0), h)
  | inr e ↦ rw e (All-insert_le m l ms (ground arith) h.0, insert_sorted-Sorted l ms h.1)
]

sort-Sorted : (ls : List Lit) → Sorted (sort ls)
unfolding sort
sort-Sorted [] = tt
sort-Sorted (l ∷ ls) = insert_sorted-Sorted l (sort ls) (sort-Sorted ls)

dedup_from-Ascending :
    (l : Lit) (ls : List Lit) → All (λ m. l ≤ m) ls → Sorted ls → Ascending (l ∷ dedup_from l ls)
unfolding dedup_from
dedup_from-Ascending l [] h s = (tt, tt)
dedup_from-Ascending l (m ∷ ms) h s = elim (Bool-cases (l == m)) [
  | inl e ↦ rw e (dedup_from-Ascending l ms h.1 s.1)
  | inr e ↦
      let rest = dedup_from-Ascending m ms s.0 s.1 in
      let below : l < m = ground arith in
      rw e (
        (below, All-map (λ k. m < k) (λ k. l < k) (dedup_from m ms) (λ k p. omega arith) rest.0),
        rest,
      )
]

pub canonical-Ascending : (ls : List Lit) → Ascending (canonical ls)
unfolding canonical dedup
canonical-Ascending ls = go (sort ls) (sort-Sorted ls)
  where
    go : (ms : List Lit) → Sorted ms → Ascending (dedup ms)
    go [] s = tt
    go (m ∷ ms) s = dedup_from-Ascending m ms s.0 s.1

member-insert_sorted :
    (x l : Lit) (ls : List Lit) → member x (insert_sorted l ls) ≡ ((l == x) || member x ls)
unfolding insert_sorted
member-insert_sorted x l [] = refl
member-insert_sorted x l (m ∷ ms) = elim (Bool-cases (leb l m)) [
  | inl e ↦ rw e
  | inr e ↦ rw e (
      ap (λ b. (m == x) || b) (member-insert_sorted x l ms)
      ∙ or_swap (m == x) (l == x) (member x ms))
]
  where
    or_swap : (a b c : Bool) → (a || (b || c)) ≡ (b || (a || c))
    or_swap a b c = ground arith

member-sort : (x : Lit) (ls : List Lit) → member x (sort ls) ≡ member x ls
unfolding sort
member-sort x [] = refl
member-sort x (l ∷ ls) =
    member-insert_sorted x l (sort ls) ∙ ap (λ b. (l == x) || b) (member-sort x ls)

member-dedup_from :
    (x l : Lit) (ls : List Lit)
    → ((l == x) || member x (dedup_from l ls)) ≡ ((l == x) || member x ls)
unfolding dedup_from
member-dedup_from x l [] = refl
member-dedup_from x l (m ∷ ms) = elim (Bool-cases (l == m)) [
  | inl e ↦ rw e (member-dedup_from x l ms ∙ ground arith)
  | inr e ↦ rw e (ap (λ b. (l == x) || b) (member-dedup_from x m ms))
]

pub member-canonical : (x : Lit) (ls : List Lit) → member x (canonical ls) ≡ member x ls
unfolding canonical dedup
member-canonical x ls = go (sort ls) ∙ member-sort x ls
  where
    go : (ms : List Lit) → member x (dedup ms) ≡ member x ms
    go [] = refl
    go (m ∷ ms) = member-dedup_from x m ms

absent : (x : Lit) (ls : List Lit) → All (λ m. x < m) ls → member x ls ≡ false
absent x [] h = refl
absent x (l ∷ ls) h = ground (arith, absent x ls h.1)

member_lt : (x l : Lit) (ls : List Lit) → All (λ m. l < m) ls → member x ls ≡ true → l < x
member_lt x l [] h e = absurd (cc e)
member_lt x l (m ∷ ms) h e = ground (arith, member_lt x l ms h.1)

same_head :
    (x y : Lit) (xs ys : List Lit)
    → Ascending (x ∷ xs)
    → Ascending (y ∷ ys)
    → ((z : Lit) → member z (x ∷ xs) ≡ member z (y ∷ ys))
    → x ≡ y
same_head x y xs ys a b h = ground (arith, h x, h y, member_lt x y ys b.0, member_lt y x xs a.0)

-- An ascending list is determined by its members.
Ascending-unique :
    (xs ys : List Lit)
    → Ascending xs
    → Ascending ys
    → ((z : Lit) → member z xs ≡ member z ys)
    → xs ≡ ys
Ascending-unique [] [] a b h = refl
Ascending-unique [] (y ∷ ys) a b h = absurd (ground (arith, h y))
Ascending-unique (x ∷ xs) [] a b h = absurd (ground (arith, h x))
Ascending-unique (x ∷ xs) (y ∷ ys) a b h =
    let e : x ≡ y = same_head x y xs ys a b h in
    ap₂ ◌∷◌ e
      (Ascending-unique xs ys a.1 b.1 (λ z. ground (arith, h z, absent x xs a.0, absent y ys b.0)))

pub canonical_unique :
    (ls ms : List Lit) → ((z : Lit) → member z ls ≡ member z ms) → canonical ls ≡ canonical ms
canonical_unique ls ms h =
    Ascending-unique (canonical ls) (canonical ms) (canonical-Ascending ls) (canonical-Ascending ms)
      (λ z. member-canonical z ls ∙ (h z ∙ sym (member-canonical z ms)))
