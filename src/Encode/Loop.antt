-- ===== src/Encode/Loop.antt =====
-- The loops that set one cell a turn, each at a tuple of its own.
use mettle.Base.{
  ℕ, ◌+◌, ◌≡◌, refl, sym, ap, ap₂, subst, fun_ext, ◌∙◌, arith, Bool, true, false, ◌&&◌, ◌||◌, List,
  [], ◌∷◌, ◌++◌, map, none, length, any, All, All-append, if◌then◌else◌,
}
use mettle.Solve.Models.{Valuation}
use mettle.Circuit
use mettle.Circuit.{CircuitBool}
use mettle.Circuit.Model.{
  Shape, Denotes, Total, Extends, Extends-refl, Extends-trans, bool_value, IsMintedBool,
  IsMintedBool-mono, bind-Total, pure-Total, same-Total, later,
}
use mettle.Bounds.{Tuple, same, before}
use mettle.Bounds.Sets.{before_apart, same_comm}
use mettle.Matrix.{Matrix, find_cell, set_cell, insert_cell, is_false}
use mettle.Matrix.Cells.{find-insert_cell}
use mettle.Encode.{Item, set_each}
use mettle.Encode.Matrices.{matrix, Ascending, set-Denotes}

-- What a turn is to do: the tuple it sets, the variables it may mint, and the value.
pub record Spec : Type 0 where
  pub key : Tuple
  pub cost : ℕ
  pub value : Valuation → Bool

-- The entry of a known tuple.
abbrev pub entry : Tuple → Shape (Tuple × CircuitBool) Bool
entry t = record {
  minted = λ n p. (p.0 ≡ t) × IsMintedBool n p.1;
  eval = λ ρ p. bool_value ρ p.1;
  mono = λ n m p h k. (k.0, IsMintedBool-mono n m p.1 h k.1);
}

-- A turn does what is specified, in every later state too.
abbrev pub Sets : Circuit.Circuit → Item → Spec → Type 0
Sets s item spec =
    (j : ℕ) (t : Circuit.Circuit)
    → Extends j s t
    → Total (entry spec.key) t spec.cost item spec.value

abbrev pub IsLoop : Circuit.Circuit → List Item → List Spec → Type 0
IsLoop s [] [] = Unit
IsLoop s [] (e ∷ specs) = ⊥
IsLoop s (item ∷ items) [] = ⊥
IsLoop s (item ∷ items) (e ∷ specs) = Sets s item e × IsLoop s items specs

-- No tuple twice.
abbrev pub Apart : List Spec → Type 0
Apart [] = Unit
Apart (e ∷ specs) = All (λ (d : Spec). same d.key e.key ≡ false) specs × Apart specs

abbrev pub total_cost : List Spec → ℕ
total_cost [] = 0
total_cost (e ∷ specs) = e.cost + total_cost specs

Sets-later :
    {j : ℕ} {s t : Circuit.Circuit} (item : Item) (spec : Spec)
    → Extends j s t
    → Sets s item spec
    → Sets t item spec
Sets-later {j} item spec e h k u f = h (j + k) u (Extends-trans e f)

IsLoop-later :
    {j : ℕ} {s t : Circuit.Circuit} (items : List Item) (specs : List Spec)
    → Extends j s t
    → IsLoop s items specs
    → IsLoop t items specs
IsLoop-later [] [] e h = tt
IsLoop-later [] (d ∷ specs) e h = absurd h
IsLoop-later (item ∷ items) [] e h = absurd h
IsLoop-later (item ∷ items) (d ∷ specs) e h =
    (Sets-later item d e h.0, IsLoop-later items specs e h.1)

pub IsLoop-append :
    (s : Circuit.Circuit) (items : List Item) (specs : List Spec) (more : List Item)
    (others : List Spec)
    → IsLoop s items specs
    → IsLoop s more others
    → IsLoop s (items ++ more) (specs ++ others)
IsLoop-append s [] [] more others h k = k
IsLoop-append s [] (d ∷ specs) more others h k = absurd h
IsLoop-append s (item ∷ items) [] more others h k = absurd h
IsLoop-append s (item ∷ items) (d ∷ specs) more others h k =
    (h.0, IsLoop-append s items specs more others h.1 k)

pub IsLoop-map :
    {E : Type 0} (s : Circuit.Circuit) (f : E → Item) (g : E → Spec) (es : List E)
    → All (λ e. Sets s (f e) (g e)) es
    → IsLoop s (map f es) (map g es)
IsLoop-map s f g [] h = tt
IsLoop-map s f g (e ∷ es) h = (h.0, IsLoop-map s f g es h.1)

still_absent :
    (t u : Tuple) (v : CircuitBool) (m : Matrix)
    → same u t ≡ false
    → find_cell u m.cells ≡ none
    → find_cell u (set_cell m t v).cells ≡ none
unfolding set_cell
still_absent t u v m e h = by_case (is_false v)
  where
    by_case :
        (b : Bool)
        → find_cell u (if b then m else record m { cells = insert_cell t v m.cells }).cells ≡ none
    by_case true = h
    by_case false = find-insert_cell u t v m.cells ∙ rw e h

All-absent :
    (t : Tuple) (v : CircuitBool) (m : Matrix) (specs : List Spec)
    → All (λ (d : Spec). same d.key t ≡ false) specs
    → All (λ (d : Spec). find_cell d.key m.cells ≡ none) specs
    → All (λ (d : Spec). find_cell d.key (set_cell m t v).cells ≡ none) specs
All-absent t v m [] h k = tt
All-absent t v m (d ∷ specs) h k =
    (still_absent t d.key v m h.0 k.0, All-absent t v m specs h.1 k.1)

or_assoc : (a b c : Bool) → ((a || b) || c) ≡ (a || (b || c))
or_assoc a b c = ground arith

-- The loop sets each specified cell, and the others stay as they were.
pub set_each-Total :
    (r : ℕ) (items : List Item) (specs : List Spec) (out : Matrix) {s : Circuit.Circuit}
    {G : Valuation → Tuple → Bool}
    → IsLoop s items specs
    → All (λ (e : Spec). length e.key ≡ r) specs
    → Apart specs
    → All (λ (e : Spec). find_cell e.key out.cells ≡ none) specs
    → Denotes (matrix r) s out G
    → Total
        (matrix r)
        s
        (total_cost specs)
        (set_each items out)
        (λ ρ u. G ρ u || any specs (λ e. same u e.key && e.value ρ))
unfolding set_each
set_each-Total r [] [] out {G} h l a n d =
    same-Total (λ ρ m. fun_ext (λ u. or_none (G ρ u))) (pure-Total d)
  where
    or_none : (b : Bool) → b ≡ (b || false)
    or_none b = ground arith
set_each-Total r [] (e ∷ specs) out h l a n d = absurd h
set_each-Total r (item ∷ items) [] out h l a n d = absurd h
set_each-Total r (item ∷ items) (e ∷ specs) out {s} {G} h l a n d =
    bind-Total (h.0 0 s (Extends-refl s)) (λ p t x dp.
      let at_key : (y : Tuple)
          → y ≡ e.key
          → Total (matrix r) t (total_cost specs) (set_each items (set_cell out y p.1)) (λ ρ u.
            G ρ u || ((same u e.key && e.value ρ) || any specs (λ c. same u c.key && c.value ρ))) =
        λ y q.
          subst
            (λ z.
              Total (matrix r) t (total_cost specs) (set_each items (set_cell out z p.1)) (λ ρ u.
                G ρ u
                || ((same u e.key && e.value ρ) || any specs (λ c. same u c.key && c.value ρ))))
            (sym q)
            (same-Total
              (λ ρ m. fun_ext (λ u.
                or_assoc (G ρ u) (same u e.key && e.value ρ)
                  (any specs (λ c. same u c.key && c.value ρ))))
              (set_each-Total r items specs (set_cell out e.key p.1)
                (IsLoop-later items specs x h.1) l.1 a.1 (All-absent e.key p.1 out specs a.0 n.1)
                (set-Denotes out e.key p.1 (later x d) l.0 n.0
                  (record { minted = dp.minted.1; value = dp.value })))) in
      at_key p.0 dp.minted.0)

pub any-map :
    {A B : Type 0} (f : A → B) (xs : List A) (p : B → Bool)
    → any (map f xs) p ≡ any xs (λ x. p (f x))
any-map f [] p = refl
any-map f (x ∷ xs) p = ap (λ b. p (f x) || b) (any-map f xs p)

pub All-of_map :
    {A B : Type 0} (P : B → Type 0) (f : A → B) (xs : List A)
    → All (λ x. P (f x)) xs
    → All P (map f xs)
All-of_map P f [] h = tt
All-of_map P f (x ∷ xs) h = (h.0, All-of_map P f xs h.1)

pub Apart-map :
    (A : Type 0) (g : Tuple × A → Spec) (es : List (Tuple × A))
    → ((e : Tuple × A) → (g e).key ≡ e.0)
    → Ascending es
    → Apart (map g es)
Apart-map A g [] k o = tt
Apart-map A g (e ∷ es) k o = (go es o.0, Apart-map A g es k o.1)
  where
    flipped : (t u : Tuple) → before t u ≡ true → same u t ≡ false
    flipped t u b = same_comm u t ∙ before_apart t u b

    go :
        (ds : List (Tuple × A))
        → All (λ d. before e.0 d.0 ≡ true) ds
        → All (λ (d : Spec). same d.key (g e).key ≡ false) (map g ds)
    go [] h = tt
    go (d ∷ ds) h = (ap₂ same (k d) (k e) ∙ flipped e.0 d.0 h.0, go ds h.1)

pub Apart-append :
    (xs ys : List Spec)
    → Apart xs
    → Apart ys
    → All (λ (x : Spec). All (λ (y : Spec). same y.key x.key ≡ false) ys) xs
    → Apart (xs ++ ys)
Apart-append [] ys a b c = b
Apart-append (x ∷ xs) ys a b c = (
  All-append (λ (y : Spec). same y.key x.key ≡ false) xs ys a.0 c.0,
  Apart-append xs ys a.1 b c.1,
)
