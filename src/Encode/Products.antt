-- ===== src/Encode/Products.antt =====
-- The product and the transpose of matrices.
use mettle.Base.{
  ℕ, ◌+◌, ◌*◌, ◌<◌, ◌≡◌, refl, sym, ap, ap₂, ◌∙◌, arith, Bool, true, false, ◌&&◌, ◌||◌, List, [],
  ◌∷◌, ◌++◌, map, Option, some, length, length-append, any, All, All-map, All-append,
}
use mettle.Solve.Models.{Valuation}
use mettle.Circuit
use mettle.Circuit.{CircuitBool, M, pure, and}
use mettle.Circuit.Model.{
  Extends, Total, Ready, bit, bool_value, IsMintedBool, bind-Total, pure-Total, cost_le,
  self-Denotes, later,
}
use mettle.Circuit.Operations.{and_Total}
use mettle.Bounds.{Tuple, same, before, tuple_new}
use mettle.Bounds.Sets.{same_comm, before_apart}
use mettle.Matrix.{Matrix}
use mettle.Eval
use mettle.Eval.{reversed, swapped, appended}
use mettle.Eval.Loop.{inserts}
use mettle.Eval.Members.{any-append, any_same, at_arity, returns_same, product_lem}
use mettle.Encode
use mettle.Encode.{Item, lift, tuple_item, each_pair, set_each}
use mettle.Encode.Matrices.{IsMatrix, Ascending, matrix}
use mettle.Encode.Loop.{
  Spec, Sets, total_cost, IsLoop, IsLoop-map, IsLoop-append, Apart, Apart-append, any-map,
  All-of_map,
}
use mettle.Encode.Cells.{total_cost-map, total_cost-append}
use mettle.Encode.Building.{from_empty-Total}
use mettle.Encode.Sets.{set_of, set_of-IsRelation, any-set_of_pairs, refines, Refines}

-- A turn at a computed tuple.
pub tuple_item-Sets :
    (s : Circuit.Circuit) (o : Option Tuple) (t : Tuple) (m : M CircuitBool) (c : ℕ)
    (g : Valuation → Bool)
    → o ≡ some t
    → ((j : ℕ) (u : Circuit.Circuit) → Extends j s u → Total bit u c m g)
    → Sets s (tuple_item o m) (record { key = t; cost = c; value = g })
tuple_item-Sets s o t m c g e h j u x = cost_le (omega arith) (
    bind-Total {k = 0} (h j u x)
      (λ v w y d. rw e (pure-Total (record { minted = (refl, d.minted); value = d.value }))))

module _ {E : Type 0} (s : Circuit.Circuit) (f : E → E → Item) (g : E → E → Spec) where
  IsLoop-pairs :
      (es ds : List E)
      → All (λ e. All (λ d. Sets s (f e d) (g e d)) ds) es
      → IsLoop s (each_pair f es ds) (each_pair g es ds)
  IsLoop-pairs [] ds h = tt
  IsLoop-pairs (e ∷ es) ds h =
      IsLoop-append s (map (f e) ds) (map (g e) ds) (each_pair f es ds) (each_pair g es ds)
        (IsLoop-map s (f e) (g e) ds h.0) (IsLoop-pairs es ds h.1)

module _ {E : Type 0} (g : E → E → Spec) where
  All-pairs :
      (P : Spec → Type 0) (es ds : List E)
      → All (λ e. All (λ d. P (g e d)) ds) es
      → All P (each_pair g es ds)
  All-pairs P [] ds h = tt
  All-pairs P (e ∷ es) ds h =
      All-append P (map (g e) ds) (each_pair g es ds) (All-of_map P (g e) ds h.0)
        (All-pairs P es ds h.1)

  any-pairs :
      (p : Spec → Bool) (es ds : List E)
      → any (each_pair g es ds) p ≡ any es (λ e. any ds (λ d. p (g e d)))
  any-pairs p [] ds = refl
  any-pairs p (e ∷ es) ds =
      any-append (map (g e) ds) (each_pair g es ds) p
      ∙ ap₂ ◌||◌ (any-map (g e) ds p) (any-pairs p es ds)

  cost-pairs :
      (es ds : List E)
      → ((e d : E) → (g e d).cost ≡ 1)
      → total_cost (each_pair g es ds) ≡ length es * length ds
  cost-pairs [] ds h = omega arith
  cost-pairs (e ∷ es) ds h = omega (
    arith,
    total_cost-append (map (g e) ds) (each_pair g es ds),
    total_cost-map (g e) 1 ds (h e),
    cost-pairs es ds h,
  )

-- Tuples of one length in front do not mix with what follows.
same-append :
    (t u v w : Tuple) → length t ≡ length u → same (t ++ v) (u ++ w) ≡ (same t u && same v w)
unfolding same
same-append [] [] v w h = refl
same-append [] (y ∷ u) v w h = absurd (omega arith)
same-append (x ∷ t) [] v w h = absurd (omega arith)
same-append (x ∷ t) (y ∷ u) v w h = ground (arith, same-append t u v w (omega arith))

abbrev appended_spec : Tuple × CircuitBool → Tuple × CircuitBool → Spec
appended_spec e d = record {
  key = e.0 ++ d.0;
  cost = 1;
  value = λ ρ. bool_value ρ e.1 && bool_value ρ d.1;
}

module _ (n r : ℕ) where
  abbrev Entries : ℕ → List (Tuple × CircuitBool) → Type 0
  Entries i es = All (λ e. (length e.0 ≡ i) × IsMintedBool n e.1) es

  row-Apart :
      (e : Tuple × CircuitBool) (ds : List (Tuple × CircuitBool))
      → Ascending ds
      → Apart (map (appended_spec e) ds)
  row-Apart e [] h = tt
  row-Apart e (d ∷ ds) h = (
    All-of_map (λ (c : Spec). same c.key (e.0 ++ d.0) ≡ false) (appended_spec e) ds
        (All-map (λ c. before d.0 c.0 ≡ true) (λ c. same (e.0 ++ c.0) (e.0 ++ d.0) ≡ false) ds
          (λ c b.
            ground
              (arith, same-append e.0 e.0 c.0 d.0 refl, same_comm c.0 d.0, before_apart d.0 c.0 b))
          h.0),
    row-Apart e ds h.1,
  )

  pairs-Apart :
      (i : ℕ) (es ds : List (Tuple × CircuitBool))
      → Entries i es
      → Ascending es
      → Ascending ds
      → Apart (each_pair appended_spec es ds)
  pairs-Apart i [] ds k h g = tt
  pairs-Apart i (e ∷ es) ds k h g =
      Apart-append (map (appended_spec e) ds) (each_pair appended_spec es ds) (row-Apart e ds g)
        (pairs-Apart i es ds k.1 h.1 g)
        (All-of_map
          (λ (x : Spec).
            All (λ (y : Spec). same y.key x.key ≡ false) (each_pair appended_spec es ds))
          (appended_spec e) ds
          (every ds (λ d.
            All-pairs appended_spec (λ (y : Spec). same y.key (e.0 ++ d.0) ≡ false) es ds
              (rows d es k.1 h.0))))
    where
      every :
          {P : Tuple × CircuitBool → Type 0} (cs : List (Tuple × CircuitBool))
          → ((c : Tuple × CircuitBool) → P c)
          → All P cs
      every [] p = tt
      every (c ∷ cs) p = (p c, every cs p)

      rows :
          (d : Tuple × CircuitBool) (cs : List (Tuple × CircuitBool))
          → Entries i cs
          → All (λ c. before e.0 c.0 ≡ true) cs
          → All (λ c. All (λ b. same (c.0 ++ b.0) (e.0 ++ d.0) ≡ false) ds) cs
      rows d [] l b = tt
      rows d (c ∷ cs) l b = (
        every ds (λ x. ground (
          arith,
          same-append c.0 e.0 x.0 d.0 (l.0.0 ∙ sym k.0.0),
          same_comm c.0 e.0,
          before_apart e.0 c.0 b.0,
        )),
        rows d cs l.1 b.1,
      )

entries_pairs :
    {P : Tuple × CircuitBool → Type 0} {Q : Tuple × CircuitBool → Type 0}
    (R : Tuple × CircuitBool → Tuple × CircuitBool → Type 0) (es ds : List (Tuple × CircuitBool))
    → All P es
    → All Q ds
    → ((e d : Tuple × CircuitBool) → P e → Q d → R e d)
    → All (λ e. All (λ d. R e d) ds) es
entries_pairs R [] ds h k f = tt
entries_pairs {Q} R (e ∷ es) ds h k f =
    (All-map Q (λ d. R e d) ds (λ d q. f e d h.0 q) k, entries_pairs R es ds h.1 k f)

appended_some : (t u : Tuple) → 0 < length t → tuple_new (t ++ u) ≡ some (t ++ u)
unfolding tuple_new
appended_some [] u h = absurd (omega arith)
appended_some (x ∷ t) u h = refl

module _ (i j : ℕ) (s : Circuit.Circuit) (a b : Matrix) (p : 0 < i)
    (ha : IsMatrix i s.cnf.num_vars a) (hb : IsMatrix j s.cnf.num_vars b) where
  pub product-Total :
      Total (matrix (i + j)) s (length a.cells * length b.cells) (Encode.product a b) (λ ρ u.
        any a.cells
          (λ e. any b.cells (λ d. same u (e.0 ++ d.0) && (bool_value ρ e.1 && bool_value ρ d.1))))
  unfolding Encode.product
  product-Total =
      let item : Tuple × CircuitBool → Tuple × CircuitBool → Item =
        λ e d. tuple_item (tuple_new (e.0 ++ d.0)) (and e.1 d.1) in
      rw (ha.0, hb.0)
        (from_empty-Total (i + j) (length a.cells * length b.cells) (each_pair item a.cells b.cells)
          (each_pair appended_spec a.cells b.cells)
          (λ ρ u.
            any a.cells (λ e.
              any b.cells (λ d. same u (e.0 ++ d.0) && (bool_value ρ e.1 && bool_value ρ d.1))))
          (IsLoop-pairs s item appended_spec a.cells b.cells (
            entries_pairs (λ e d. Sets s (item e d) (appended_spec e d)) a.cells b.cells ha.2 hb.2
              (λ e d k l.
                tuple_item-Sets s (tuple_new (e.0 ++ d.0)) (e.0 ++ d.0) (and e.1 d.1) 1
                  (appended_spec e d).value (appended_some e.0 d.0 (omega (arith, k.0)))
                  (λ n u x.
                    and_Total (later x (self-Denotes {x = bit} {s = s} k.1))
                      (later x (self-Denotes {x = bit} {s = s} l.1))))))
          (All-pairs appended_spec (λ (c : Spec). length c.key ≡ i + j) a.cells b.cells
            (entries_pairs (λ e d. length (e.0 ++ d.0) ≡ i + j) a.cells b.cells ha.2 hb.2
              (λ e d k l. omega (arith, length-append e.0 d.0, k.0, l.0))))
          (pairs-Apart s.cnf.num_vars 0 i a.cells b.cells ha.2 ha.1 hb.1)
          (omega (arith, cost-pairs appended_spec a.cells b.cells (λ e d. refl)))
          (λ ρ u. any-pairs appended_spec (λ c. same u c.key && c.value ρ) a.cells b.cells))

  inserts-appended : (t u x : Tuple) → 0 < length t → inserts (appended t u) x ≡ same x (t ++ u)
  unfolding appended
  inserts-appended t u x h = ap (λ o. inserts (Eval.checked o) x) (appended_some t u h)

  -- Over two matrices of minted bits with tuples of i and of j atoms, neither 0, in a well-formed
  -- state with room for a gate a pair of cells, the encoder's product returns, and in every model
  -- the set that its result holds is the one that the evaluator's product computes from the sets
  -- that the operands hold.
  pub product-Refines :
      0 < j
      → Ready (length a.cells * length b.cells) s
      → Refines
          (i + j)
          s
          (length a.cells * length b.cells)
          (Encode.product a b)
          (λ ρ. Eval.product (set_of ρ a) (set_of ρ b))
  unfolding set_of
  product-Refines q ready =
      refines (i + j)
        (λ ρ u.
          any a.cells
            (λ e. any b.cells (λ d. same u (e.0 ++ d.0) && (bool_value ρ e.1 && bool_value ρ d.1))))
        (λ ρ. Eval.product (set_of ρ a) (set_of ρ b)) (omega arith) product-Total ready
        (λ ρ m. at_arity (ap₂ ◌+◌ ha.0 hb.0) (
          returns_same
            (λ u. any a.cells (λ e.
              any b.cells (λ d. same u (e.0 ++ d.0) && (bool_value ρ e.1 && bool_value ρ d.1))))
            (λ u.
              any-set_of_pairs ρ a b (λ t w. inserts (appended t w) u)
              ∙ any_same a.cells (λ e. (length e.0 ≡ i) × IsMintedBool s.cnf.num_vars e.1)
                  (λ e.
                    any b.cells
                      (λ d. inserts (appended e.0 d.0) u && (bool_value ρ e.1 && bool_value ρ d.1)))
                  (λ e.
                    any b.cells
                      (λ d. same u (e.0 ++ d.0) && (bool_value ρ e.1 && bool_value ρ d.1)))
                  ha.2
                  (λ e k.
                    any_same b.cells (λ d. (length d.0 ≡ j) × IsMintedBool s.cnf.num_vars d.1)
                      (λ d. inserts (appended e.0 d.0) u && (bool_value ρ e.1 && bool_value ρ d.1))
                      (λ d. same u (e.0 ++ d.0) && (bool_value ρ e.1 && bool_value ρ d.1)) hb.2
                      (λ d l.
                        ap (λ c. c && (bool_value ρ e.1 && bool_value ρ d.1))
                          (inserts-appended e.0 d.0 u (omega (arith, k.0))))))
            (product_lem (set_of ρ a) (set_of ρ b) (set_of-IsRelation i s.cnf.num_vars ρ a p ha)
              (set_of-IsRelation j s.cnf.num_vars ρ b q hb))))
