-- ===== src/Bounds/Table.antt =====
-- The table of bounds as a map from relations.
use mettle.Base.{
  ◌≡◌, refl, arith, false, Bool-cases, ◌==◌, ==_iff, ltb, List, [], ◌∷◌, none, some, inl, inr,
}
use mettle.Bounds.{RelId, RelBound, Bounds, lookup, insert_bound, bind, rebind, get_bound}

lookup-insert_same :
    (rel : RelId) (bound : RelBound) (bs : List (RelId × RelBound))
    → lookup rel (insert_bound rel bound bs) ≡ some bound
unfolding lookup insert_bound
lookup-insert_same rel bound [] = rw ((==_iff rel rel).1 refl) refl
lookup-insert_same rel bound ((r, b) ∷ bs) = elim (Bool-cases (rel == r)) [
  | inl e ↦ rw e (rw ((==_iff rel rel).1 refl) refl)
  | inr e ↦ elim (Bool-cases (ltb rel r)) [
    | inl k ↦ rw (e, k) (rw ((==_iff rel rel).1 refl) refl)
    | inr k ↦ rw (e, k) (rw e (lookup-insert_same rel bound bs))
  ]
]

lookup-insert_other :
    (x rel : RelId) (bound : RelBound) (bs : List (RelId × RelBound))
    → (x == rel) ≡ false
    → lookup x (insert_bound rel bound bs) ≡ lookup x bs
unfolding lookup insert_bound
lookup-insert_other x rel bound [] n = rw n refl
lookup-insert_other x rel bound ((r, b) ∷ bs) n = elim (Bool-cases (rel == r)) [
  | inl e ↦ let m : (x == r) ≡ false = rw ((==_iff rel r).0 e) at n in rw (e, n, m) refl
  | inr e ↦ elim (Bool-cases (ltb rel r)) [
    | inl k ↦ rw (e, k) (rw n refl)
    | inr k ↦ rw (e, k) (ground (arith, lookup-insert_other x rel bound bs n))
  ]
]

-- A table that differs from another in the binding of one relation.
pub record Binds (b : Bounds) (rel : RelId) (bound : RelBound) (c : Bounds) : Type 0 where
  pub bound_at : get_bound c rel ≡ some bound
  pub others : (x : RelId) → (x == rel) ≡ false → get_bound c x ≡ get_bound b x
  pub same_universe : c.universe ≡ b.universe

stored :
    (b : Bounds) (rel : RelId) (bound : RelBound)
    → Binds b rel bound (record b { bounds = insert_bound rel bound b.bounds })
unfolding get_bound
stored b rel bound = record {
  bound_at = lookup-insert_same rel bound b.bounds;
  others = λ x n. lookup-insert_other x rel bound b.bounds n;
  same_universe = refl;
}

-- For an unbound relation, bind gives it the bound and changes nothing else, and rebind panics.
pub bind_lem :
    (b : Bounds) (rel : RelId) (bound : RelBound)
    → get_bound b rel ≡ none
    → ((c : Bounds) × (bind b rel bound ≡ some c) × Binds b rel bound c)
      × (rebind b rel bound ≡ none)
unfolding bind rebind get_bound
bind_lem b rel bound h = (
  (record b { bounds = insert_bound rel bound b.bounds }, rw h refl, stored b rel bound),
  rw h refl,
)

-- For a bound relation, rebind replaces its bound and changes nothing else, and bind panics.
pub rebind_lem :
    (b : Bounds) (rel : RelId) (old bound : RelBound)
    → get_bound b rel ≡ some old
    → ((c : Bounds) × (rebind b rel bound ≡ some c) × Binds b rel bound c)
      × (bind b rel bound ≡ none)
unfolding bind rebind get_bound
rebind_lem b rel old bound h = (
  (record b { bounds = insert_bound rel bound b.bounds }, rw h refl, stored b rel bound),
  rw h refl,
)
