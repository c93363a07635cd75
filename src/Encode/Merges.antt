-- ===== src/Encode/Merges.antt =====
-- The gates of the first atoms, and the merge of one matrix into another.
use mettle.Base.{
  ℕ, ◌+◌, ◌≤◌, ◌≡◌, refl, sym, ap, fun_ext, ◌∙◌, arith, Bool, true, false, ◌&&◌, ◌||◌, ◌==◌,
  if◌then◌else◌, List, [], ◌∷◌, length, any, All, All-map, Bool-cases, inl, inr,
}
use mettle.Solve.Models.{Valuation}
use mettle.Circuit
use mettle.Circuit.{CircuitBool, const, M, pure, ◌>>=◌, bool_not, and, or, or_many}
use mettle.Circuit.Model.{
  Shape, Denotes, Total, bit, bits, bool_value, IsMintedBool, IsMintedBool-mono, bind-Total,
  pure-Total, cost_le, self-Denotes, later, same-Total,
}
use mettle.Circuit.Operations.{or_Total, or_many-Total}
use mettle.Bounds.{AtomId, Tuple, same}
use mettle.Bounds.Sets.{same→eq}
use mettle.Matrix.{Matrix, get_cell, entry_or_false, contains_key}
use mettle.Matrix.Cells.{inserted-get, entry_lem}
use mettle.Encode.{or_each, in_dom, merge_cell, merge_each}
use mettle.Encode.Matrices.{IsMatrix, matrix, insert_cell-Ascending, insert_cell-All}
use mettle.Encode.Loop.{any-map}
use mettle.Encode.Cells.{get_cell-IsMinted}
use mettle.Encode.Starts.{Dom, AreTerms, terms_at}

-- The atoms whose gate is true.
abbrev pub atoms : Shape (List (AtomId × CircuitBool)) (AtomId → Bool)
atoms = record {
  minted = λ n dom. All (λ (g : AtomId × CircuitBool). IsMintedBool n g.1) dom;
  eval = λ ρ dom x. at_atom ρ x dom;
  mono = λ n m dom h k.
      All-map (λ (g : AtomId × CircuitBool). IsMintedBool n g.1)
        (λ (g : AtomId × CircuitBool). IsMintedBool m g.1) dom (λ g. IsMintedBool-mono n m g.1 h) k;
}
  where
    at_atom : Valuation → AtomId → List (AtomId × CircuitBool) → Bool
    at_atom ρ x dom = bool_value ρ (in_dom x dom)

terms_mono : (n m : ℕ) (dom : Dom) → n ≤ m → AreTerms n dom → AreTerms m dom
terms_mono n m dom h k =
    All-map (λ (g : AtomId × List CircuitBool). All (IsMintedBool n) g.1)
      (λ (g : AtomId × List CircuitBool). All (IsMintedBool m) g.1) dom
      (λ g. All-map (IsMintedBool n) (IsMintedBool m) g.1 (λ b. IsMintedBool-mono n m b h)) k

pub or_each-Total :
    (groups : Dom) {s : Circuit.Circuit}
    → AreTerms s.cnf.num_vars groups
    → Total atoms s (length groups) (or_each groups) (λ ρ x. any (terms_at x groups) (bool_value ρ))
unfolding or_each in_dom
or_each-Total [] h = pure-Total (record { minted = tt; value = λ ρ m. refl })
or_each-Total ((x, terms) ∷ groups) {s} h = cost_le (omega arith) (
    bind-Total {j = 1} {k = length groups + 0}
      (or_many-Total (self-Denotes {x = bits (length terms)} {s = s} {a = terms} (refl, h.0)))
      (λ v t e dv.
        bind-Total {j = length groups} {k = 0}
          (or_each-Total groups {s = t}
            (terms_mono s.cnf.num_vars t.cnf.num_vars groups e.grows h.1))
          (λ rest u f dr. pure-Total {x = atoms} (record {
            minted =
                (IsMintedBool-mono t.cnf.num_vars u.cnf.num_vars v f.grows dv.minted, dr.minted);
            value = λ ρ m. fun_ext (λ y.
                first_of ρ v (in_dom y rest) terms (terms_at y groups) (y == x)
                  ((later f dv).value ρ m ∙ any-map (bool_value ρ) terms (λ b. b))
                  (ap (λ g. g y) (dr.value ρ m)));
          }))))
  where
    first_of :
        (ρ : Valuation) (v w : CircuitBool) (ts us : List CircuitBool) (c : Bool)
        → bool_value ρ v ≡ any ts (bool_value ρ)
        → bool_value ρ w ≡ any us (bool_value ρ)
        → bool_value ρ (if c then v else w) ≡ any (if c then ts else us) (bool_value ρ)
    first_of ρ v w ts us true p q = p
    first_of ρ v w ts us false p q = q

-- The slot holds what the cell read as, then the disjunction.
module _ (r : ℕ) where
  entry-IsMatrix :
      (n : ℕ) (m : Matrix) (t : Tuple)
      → length t ≡ r
      → IsMatrix r n m
      → IsMatrix r n (entry_or_false m t)
  unfolding entry_or_false
  entry-IsMatrix n m t l h = elim (Bool-cases (contains_key m t)) [
    | inl e ↦ rw e h
    | inr e ↦ rw e (
      h.0,
      insert_cell-Ascending t (const false) m.cells h.1,
      insert_cell-All (λ d. (length d.0 ≡ r) × IsMintedBool n d.1) t (const false) m.cells (l, tt)
          h.2,
    )
  ]

  merge-Denotes :
      {s : Circuit.Circuit} (out : Matrix) (t : Tuple) (v : CircuitBool)
      {G : Valuation → Tuple → Bool} (g : Valuation → Bool)
      → length t ≡ r
      → Denotes (matrix r) s out G
      → Denotes bit s v (λ ρ. G ρ t || g ρ)
      → Denotes
          (matrix r)
          s
          (merge_cell (entry_or_false out t) t v)
          (λ ρ u. G ρ u || (same u t && g ρ))
  unfolding merge_cell
  merge-Denotes {s} out t v {G} g l d e =
      let n = s.cnf.num_vars in
      let slot = entry_or_false (entry_or_false out t) t in
      let h = entry-IsMatrix n (entry_or_false out t) t l (entry-IsMatrix n out t l d.minted) in
      record {
        minted = (
          h.0,
          insert_cell-Ascending t v slot.cells h.1,
          insert_cell-All (λ c. (length c.0 ≡ r) × IsMintedBool n c.1) t v slot.cells (l, e.minted)
              h.2,
        );
        value = λ ρ m. fun_ext (λ u.
            let old : bool_value ρ (get_cell slot u) ≡ G ρ u =
              ap (bool_value ρ) ((entry_lem (entry_or_false out t) t u).0 ∙ (entry_lem out t u).0)
              ∙ ap (λ f. f u) (d.value ρ m) in
            ap (bool_value ρ) (inserted-get slot t u v) ∙ elim (Bool-cases (same u t)) [
              | inl q ↦ rw q (e.value ρ m ∙ ap (λ y. G ρ y || g ρ) (sym (same→eq u t q)))
              | inr q ↦ rw q (old ∙ ground arith)
            ]);
      }

  pub merge_each-Total :
      (n : ℕ) (cells : List (Tuple × CircuitBool)) (out : Matrix) {s : Circuit.Circuit}
      {G : Valuation → Tuple → Bool}
      → n ≤ s.cnf.num_vars
      → All (λ e. (length e.0 ≡ r) × IsMintedBool n e.1) cells
      → Denotes (matrix r) s out G
      → Total
          (matrix r)
          s
          (length cells)
          (merge_each cells out)
          (λ ρ u. G ρ u || any cells (λ d. same u d.0 && bool_value ρ d.1))
  unfolding merge_each
  merge_each-Total n [] out {G} h k d =
      same-Total (λ ρ m. fun_ext (λ u. or_none (G ρ u))) (pure-Total d)
    where
      or_none : (b : Bool) → b ≡ (b || false)
      or_none b = ground arith
  merge_each-Total n ((t, v) ∷ cells) out {s} {G} h k d =
      let at_slot : Denotes bit s (get_cell (entry_or_false out t) t) (λ ρ. G ρ t) = record {
        minted =
            get_cell-IsMinted r s.cnf.num_vars (entry_or_false out t) t
              (entry-IsMatrix s.cnf.num_vars out t k.0.0 d.minted);
        value = λ ρ m. ap (bool_value ρ) (entry_lem out t t).0 ∙ ap (λ f. f t) (d.value ρ m);
      } in
      cost_le (omega arith) (
        bind-Total {j = 1} {k = length cells}
          (or_Total at_slot
            (self-Denotes {x = bit} {s = s} (IsMintedBool-mono n s.cnf.num_vars v h k.0.1)))
          (λ merged u x dm.
            same-Total
              (λ ρ m. fun_ext (λ w.
                or_assoc (G ρ w) (same w t && bool_value ρ v)
                  (any cells (λ c. same w c.0 && bool_value ρ c.1))))
              (merge_each-Total n cells (merge_cell (entry_or_false out t) t merged) {s = u}
                (omega (arith, x.grows, h)) k.1
                (merge-Denotes out t merged (λ ρ. bool_value ρ v) k.0.0 (later x d) dm))))
    where
      or_assoc : (a b c : Bool) → ((a || b) || c) ≡ (a || (b || c))
      or_assoc a b c = ground arith
