-- ===== src/Encode/Groups.antt =====
-- The contributions to the tuples of a join.
use mettle.Base.{
  ℕ, suc, ◌+◌, ◌*◌, ◌≤◌, ◌≡◌, refl, ap, ◌∙◌, arith, Bool, true, ◌&&◌, ◌||◌, List, [], ◌∷◌, Option,
  none, some, length, length-append, any, All, All-append, Bool-cases, inl, inr,
}
use mettle.Circuit.{CircuitBool}
use mettle.Circuit.Model.{IsMintedBool}
use mettle.Bounds.{Tuple, same, before}
use mettle.Bounds.Sets.{same→eq, before_total}
use mettle.Eval.{Turn, and_then, joined}
use mettle.Eval.Loop.{inserts, IsTurn}
use mettle.Eval.Members.{any-append}
use mettle.Encode.{Groups, add_pair, contribute, group_row, group_pairs}
use mettle.Encode.Matrices.{Ascending, All-later}

abbrev pub Contribution : Type 0
Contribution = CircuitBool × CircuitBool

-- The contribution of a pair to a tuple.
abbrev pub in_groups : (Contribution → Bool) → Groups → Tuple → Bool
in_groups V groups u = any groups (λ g. same u g.0 && any g.1 V)

-- The gates of the groups.
abbrev pub groups_cost : Groups → ℕ
groups_cost [] = 0
groups_cost (g ∷ groups) = suc (length g.1) + groups_cost groups

-- Groups of pairs over `n` variables, at tuples of `r` atoms in order.
abbrev pub IsGroup : ℕ → ℕ → Tuple × List Contribution → Type 0
IsGroup r n g = (length g.0 ≡ r) × All (λ p. IsMintedBool n p.0 × IsMintedBool n p.1) g.1

abbrev pub IsGrouping : ℕ → ℕ → Groups → Type 0
IsGrouping r n groups = Ascending groups × All (IsGroup r n) groups

add_pair-before :
    (u t : Tuple) (p : Contribution) (groups : Groups)
    → before u t ≡ true
    → All (λ g. before u g.0 ≡ true) groups
    → All (λ g. before u g.0 ≡ true) (add_pair t p groups)
unfolding add_pair
add_pair-before u t p [] b h = (b, tt)
add_pair-before u t p (g ∷ groups) b h = elim (Bool-cases (same t g.0)) [
  | inl e ↦ rw e h
  | inr e ↦ elim (Bool-cases (before t g.0)) [
    | inl k ↦ rw (e, k) (b, h)
    | inr k ↦ rw (e, k) (h.0, add_pair-before u t p groups b h.1)
  ]
]

module _ (r n : ℕ) (t : Tuple) (p : Contribution) (l : length t ≡ r)
    (m : IsMintedBool n p.0 × IsMintedBool n p.1) where
  add_pair-Ascending : (groups : Groups) → Ascending groups → Ascending (add_pair t p groups)
  unfolding add_pair
  add_pair-Ascending [] h = (tt, tt)
  add_pair-Ascending (g ∷ groups) h = elim (Bool-cases (same t g.0)) [
    | inl e ↦ rw e h
    | inr e ↦ elim (Bool-cases (before t g.0)) [
      | inl k ↦ rw (e, k) ((k, All-later t g.0 groups k h.0), h)
      | inr k ↦
          rw (e, k)
            (
              add_pair-before g.0 t p groups (before_total t g.0 e k) h.0,
              add_pair-Ascending groups h.1,
            )
    ]
  ]

  add_pair-IsGroup :
      (groups : Groups) → All (IsGroup r n) groups → All (IsGroup r n) (add_pair t p groups)
  unfolding add_pair
  add_pair-IsGroup [] h = ((l, (m, tt)), tt)
  add_pair-IsGroup (g ∷ groups) h = elim (Bool-cases (same t g.0)) [
    | inl e ↦ rw e (
      (h.0.0, All-append (λ q. IsMintedBool n q.0 × IsMintedBool n q.1) g.1 (p ∷ []) h.0.1 (m, tt)),
      h.1,
    )
    | inr e ↦ elim (Bool-cases (before t g.0)) [
      | inl k ↦ rw (e, k) ((l, (m, tt)), h)
      | inr k ↦ rw (e, k) (h.0, add_pair-IsGroup groups h.1)
    ]
  ]

add_pair-cost :
    (t : Tuple) (p : Contribution) (groups : Groups)
    → groups_cost (add_pair t p groups) ≤ 2 + groups_cost groups
unfolding add_pair
add_pair-cost t p [] = omega arith
add_pair-cost t p (g ∷ groups) = elim (Bool-cases (same t g.0)) [
  | inl e ↦ rw e (omega (arith, length-append g.1 (p ∷ [])))
  | inr e ↦ elim (Bool-cases (before t g.0)) [
    | inl k ↦ rw (e, k) (omega arith)
    | inr k ↦ rw (e, k) (omega (arith, add_pair-cost t p groups))
  ]
]

add_pair_lem :
    (V : Contribution → Bool) (t u : Tuple) (p : Contribution) (groups : Groups)
    → in_groups V (add_pair t p groups) u ≡ (in_groups V groups u || (same u t && V p))
unfolding add_pair
add_pair_lem V t u p [] = ground arith
add_pair_lem V t u p (g ∷ groups) = elim (Bool-cases (same t g.0)) [
  | inl e ↦ rw e (ground (arith, any-append g.1 (p ∷ []) V, ap (same u) (same→eq t g.0 e)))
  | inr e ↦ elim (Bool-cases (before t g.0)) [
    | inl k ↦ rw (e, k) (ground arith)
    | inr k ↦ rw (e, k) (ground (arith, add_pair_lem V t u p groups))
  ]
]

-- A loop over `k` pairs that groups the contributions of `P`.
pub record Grouped (r n k : ℕ) (before_it : Groups) (o : Option Groups)
    (P : (Contribution → Bool) → Tuple → Bool) : Type 0 where
  pub groups : Groups
  pub returns : o ≡ some groups
  pub valid : IsGrouping r n groups
  pub cost : groups_cost groups ≤ 2 * k + groups_cost before_it
  pub members :
      (V : Contribution → Bool) (u : Tuple)
      → in_groups V groups u ≡ (in_groups V before_it u || P V u)

module _ (r n : ℕ) where
  one_pair :
      (turn : Turn) (p : Contribution) (gs : Groups)
      → IsTurn r turn
      → IsMintedBool n p.0 × IsMintedBool n p.1
      → IsGrouping r n gs
      → Grouped r n 1 gs
          (and_then turn (λ t. some (contribute t p gs)))
          (λ V u. inserts turn u && V p)
  one_pair none p gs h m v = absurd h
  one_pair (some none) p gs h m v = record {
    groups = gs;
    returns = refl;
    valid = v;
    cost = omega arith;
    members = λ V u. ground arith;
  }
  one_pair (some (some t)) p gs h m v = record {
    groups = add_pair t p gs;
    returns = refl;
    valid = (add_pair-Ascending r n t p h m gs v.0, add_pair-IsGroup r n t p h m gs v.1);
    cost = omega (arith, add_pair-cost t p gs);
    members = λ V u. add_pair_lem V t u p gs;
  }

  and_then-some :
      (turn : Turn) (f : Option Tuple → Groups) (k : Groups → Option Groups) (gs : Groups)
      → and_then turn (λ t. some (f t)) ≡ some gs
      → and_then turn (λ t. k (f t)) ≡ k gs
  and_then-some none f k gs h = absurd (cc h)
  and_then-some (some t) f k gs h = ap k (ground arith)

  pub group_row_lem :
      (e : Tuple × CircuitBool) (ds : List (Tuple × CircuitBool)) (gs : Groups)
      → IsMintedBool n e.1
      → All (λ d. IsTurn r (joined e.0 d.0) × IsMintedBool n d.1) ds
      → IsGrouping r n gs
      → Grouped r n
          (length ds)
          gs
          (group_row e ds gs)
          (λ V u. any ds (λ d. inserts (joined e.0 d.0) u && V (e.1, d.1)))
  unfolding group_row
  group_row_lem e [] gs m h v = record {
    groups = gs;
    returns = refl;
    valid = v;
    cost = omega arith;
    members = λ V u. ground arith;
  }
  group_row_lem e (d ∷ ds) gs m h v =
      let one = one_pair (joined e.0 d.0) (e.1, d.1) gs h.0.0 (m, h.0.1) v in
      let more = group_row_lem e ds one.groups m h.1 one.valid in
      record {
        groups = more.groups;
        returns =
            and_then-some (joined e.0 d.0) (λ t. contribute t (e.1, d.1) gs)
              (λ next. group_row e ds next) one.groups one.returns
            ∙ more.returns;
        valid = more.valid;
        cost = omega (arith, more.cost, one.cost);
        members = λ V u. ground (arith, more.members V u, one.members V u);
      }

  pub group_pairs_lem :
      (es ds : List (Tuple × CircuitBool)) (gs : Groups)
      → All
          (λ e. IsMintedBool n e.1 × All (λ d. IsTurn r (joined e.0 d.0) × IsMintedBool n d.1) ds)
          es
      → IsGrouping r n gs
      → Grouped r n
          (length es * length ds)
          gs
          (group_pairs es ds gs)
          (λ V u. any es (λ e. any ds (λ d. inserts (joined e.0 d.0) u && V (e.1, d.1))))
  unfolding group_pairs
  group_pairs_lem [] ds gs h v = record {
    groups = gs;
    returns = refl;
    valid = v;
    cost = omega arith;
    members = λ V u. ground arith;
  }
  group_pairs_lem (e ∷ es) ds gs h v =
      let one = group_row_lem e ds gs h.0.0 h.0.1 v in
      let more = group_pairs_lem es ds one.groups h.1 one.valid in
      record {
        groups = more.groups;
        returns = rw one.returns more.returns;
        valid = more.valid;
        cost = omega (arith, more.cost, one.cost);
        members = λ V u. ground (arith, more.members V u, one.members V u);
      }
