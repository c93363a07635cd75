-- ===== src/Encode/Matrices.antt =====
-- What a matrix of circuit bits stands for: a set of tuples for each valuation.
use mettle.Base.{
  ℕ, ◌≡◌, refl, sym, ap, ap₂, subst, fun_ext, ◌∙◌, arith, Bool, true, false, ◌&&◌, ◌||◌, Bool-cases,
  List, [], ◌∷◌, Option, none, some, length, any, All, All-map, inl, inr,
}
use mettle.Solve.Models.{Valuation}
use mettle.Circuit
use mettle.Circuit.{CircuitBool, const, lit}
use mettle.Circuit.Model.{Shape, Denotes, bit, bool_value, IsMintedBool, IsMintedBool-mono}
use mettle.Bounds.{Tuple, same, before}
use mettle.Bounds.Sets.{same→eq, before_apart, before_total, later_before}
use mettle.Matrix.{Matrix, empty_matrix, find_cell, insert_cell, set_cell, get_cell, is_false}
use mettle.Matrix.Cells.{set_cell_lem}

-- Entries in the strict order of their tuples.
abbrev pub Ascending : {A : Type 0} → List (Tuple × A) → Type 0
Ascending [] = Unit
Ascending (e ∷ es) = All (λ d. before e.0 d.0 ≡ true) es × Ascending es

-- A matrix over `n` variables whose tuples have `r` atoms.
abbrev pub IsMatrix : ℕ → ℕ → Matrix → Type 0
IsMatrix r n m =
    (m.arity ≡ r) × Ascending m.cells × All (λ e. (length e.0 ≡ r) × IsMintedBool n e.1) m.cells

abbrev pub matrix : ℕ → Shape Matrix (Tuple → Bool)
matrix r = record {
  minted = IsMatrix r;
  eval = λ ρ m u. bool_value ρ (get_cell m u);
  mono = λ n k m h v. (
    v.0,
    v.1,
    All-map (λ e. (length e.0 ≡ r) × IsMintedBool n e.1)
        (λ e. (length e.0 ≡ r) × IsMintedBool k e.1) m.cells
        (λ e p. (p.0, IsMintedBool-mono n k e.1 h p.1)) v.2,
  );
}

pub find_absent :
    (t : Tuple) (cells : List (Tuple × CircuitBool))
    → All (λ e. before t e.0 ≡ true) cells
    → find_cell t cells ≡ none
unfolding find_cell
find_absent t [] h = refl
find_absent t (e ∷ cells) h = rw (before_apart t e.0 h.0) (find_absent t cells h.1)

pub All-later :
    {A : Type 0} (t u : Tuple) (es : List (Tuple × A))
    → before t u ≡ true
    → All (λ e. before u e.0 ≡ true) es
    → All (λ e. before t e.0 ≡ true) es
All-later t u [] b h = tt
All-later t u (e ∷ es) b h = ((later_before t u (e.0 ∷ []) b (h.0, tt)).0, All-later t u es b h.1)

pub insert_cell-All :
    (P : Tuple × CircuitBool → Type 0) (t : Tuple) (v : CircuitBool)
    (cells : List (Tuple × CircuitBool))
    → P (t, v)
    → All P cells
    → All P (insert_cell t v cells)
unfolding insert_cell
insert_cell-All P t v [] p h = (p, tt)
insert_cell-All P t v ((u, b) ∷ cells) p h = elim (Bool-cases (same t u)) [
  | inl e ↦ rw e (p, h.1)
  | inr e ↦ elim (Bool-cases (before t u)) [
    | inl k ↦ rw (e, k) (p, h)
    | inr k ↦ rw (e, k) (h.0, insert_cell-All P t v cells p h.1)
  ]
]

pub insert_cell-Ascending :
    (t : Tuple) (v : CircuitBool) (cells : List (Tuple × CircuitBool))
    → Ascending cells
    → Ascending (insert_cell t v cells)
unfolding insert_cell
insert_cell-Ascending t v [] o = (tt, tt)
insert_cell-Ascending t v ((u, b) ∷ cells) o = elim (Bool-cases (same t u)) [
  | inl e ↦ rw e (subst (λ y. All (λ d. before y d.0 ≡ true) cells) (sym (same→eq t u e)) o.0, o.1)
  | inr e ↦ elim (Bool-cases (before t u)) [
    | inl k ↦ rw (e, k) ((k, All-later t u cells k o.0), o)
    | inr k ↦
        rw (e, k)
          (
            insert_cell-All (λ d. before u d.0 ≡ true) t v cells (before_total t u e k) o.0,
            insert_cell-Ascending t v cells o.1,
          )
  ]
]

pub set_cell-IsMatrix :
    (r n : ℕ) (m : Matrix) (t : Tuple) (v : CircuitBool)
    → IsMatrix r n m
    → length t ≡ r
    → IsMintedBool n v
    → IsMatrix r n (set_cell m t v)
unfolding set_cell
set_cell-IsMatrix r n m t v h l k = elim (Bool-cases (is_false v)) [
  | inl e ↦ rw e h
  | inr e ↦ rw e (
    h.0,
    insert_cell-Ascending t v m.cells h.1,
    insert_cell-All (λ d. (length d.0 ≡ r) × IsMintedBool n d.1) t v m.cells (l, k) h.2,
  )
]

-- What a cell that was absent reads as.
pub absent_value :
    (ρ : Valuation) (m : Matrix) (t : Tuple)
    → find_cell t m.cells ≡ none
    → bool_value ρ (get_cell m t) ≡ false
unfolding get_cell
absent_value ρ m t e = rw e refl

false_value : (ρ : Valuation) (v : CircuitBool) → is_false v ≡ true → bool_value ρ v ≡ false
false_value ρ (const false) e = refl
false_value ρ (const true) e = absurd (cc e)
false_value ρ (lit l) e = absurd (cc e)

set_value :
    (ρ : Valuation) (m : Matrix) (t u : Tuple) (v : CircuitBool)
    → find_cell t m.cells ≡ none
    → bool_value ρ (get_cell (set_cell m t v) u)
      ≡ (bool_value ρ (get_cell m u) || (same u t && bool_value ρ v))
set_value ρ m t u v e = ap (bool_value ρ) (set_cell_lem m t u v) ∙ elim (Bool-cases (same u t)) [
  | inr q ↦ rw q (ground arith)
  | inl q ↦
      let old : bool_value ρ (get_cell m u) ≡ false =
        ap (λ y. bool_value ρ (get_cell m y)) (same→eq u t q) ∙ absent_value ρ m t e in
      elim (Bool-cases (is_false v)) [
        | inl f ↦ rw (q, f) (rw (old, false_value ρ v f) refl)
        | inr f ↦ rw (q, f) (rw old refl)
      ]
]

pub empty-Denotes :
    (r : ℕ) {s : Circuit.Circuit} → Denotes (matrix r) s (empty_matrix r) (λ ρ u. false)
unfolding empty_matrix get_cell find_cell
empty-Denotes r = record { minted = (refl, tt, tt); value = λ ρ m. refl }

module _ {r : ℕ} {s : Circuit.Circuit} where
  pub set-Denotes :
      (out : Matrix) (t : Tuple) (v : CircuitBool) {G : Valuation → Tuple → Bool}
      {g : Valuation → Bool}
      → Denotes (matrix r) s out G
      → length t ≡ r
      → find_cell t out.cells ≡ none
      → Denotes bit s v g
      → Denotes (matrix r) s (set_cell out t v) (λ ρ u. G ρ u || (same u t && g ρ))
  set-Denotes out t v {G} {g} d l e b = record {
    minted = set_cell-IsMatrix r s.cnf.num_vars out t v d.minted l b.minted;
    value = λ ρ m. fun_ext (λ u.
        set_value ρ out t u v e
        ∙ ap₂ (λ x y. x || (same u t && y)) (ap (λ f. f u) (d.value ρ m)) (b.value ρ m));
  }

-- What a test gives at a cell, if there is one.
abbrev pub at_cell : (CircuitBool → Bool) → Option CircuitBool → Bool
at_cell P none = false
at_cell P (some v) = P v

none_at :
    (x : Tuple) (cells : List (Tuple × CircuitBool)) (P : Tuple × CircuitBool → Bool)
    → All (λ e. before x e.0 ≡ true) cells
    → any cells (λ e. same x e.0 && P e) ≡ false
none_at x [] P h = refl
none_at x (e ∷ cells) P h = rw (before_apart x e.0 h.0) (none_at x cells P h.1)

-- In a matrix at most one cell has a given tuple.
pub any_at :
    (x : Tuple) (cells : List (Tuple × CircuitBool)) (P : Tuple × CircuitBool → Bool)
    → Ascending cells
    → any cells (λ e. same x e.0 && P e) ≡ at_cell (λ v. P (x, v)) (find_cell x cells)
unfolding find_cell
any_at x [] P o = refl
any_at x ((u, v) ∷ cells) P o = elim (Bool-cases (same x u)) [
  | inr e ↦ rw e (any_at x cells P o.1)
  | inl e ↦
      let p : x ≡ u = same→eq x u e in
      let rest : any cells (λ d. same x d.0 && P d) ≡ false =
        none_at x cells P (subst (λ y. All (λ d. before y d.0 ≡ true) cells) (sym p) o.0) in
      rw (e, rest) (or_false_r (P (u, v)) ∙ ap (λ y. P (y, v)) (sym p))
]
  where
    or_false_r : (b : Bool) → (b || false) ≡ b
    or_false_r b = ground arith
