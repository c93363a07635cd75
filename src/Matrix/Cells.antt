-- ===== src/Matrix/Cells.antt =====
-- The cells of a matrix after an update.
use mettle.Base.{
  ◌≡◌, refl, sym, ap, subst, Bool, true, false, not, Bool-cases, ◌&&◌, if◌then◌else◌, List, [], ◌∷◌,
  Option, none, some, inl, inr, ◌∙◌,
}
use mettle.Circuit.{CircuitBool, const, lit}
use mettle.Bounds.{Tuple, same, before}
use mettle.Bounds.Sets.{same→eq, same_refl}
use mettle.Matrix.{
  Matrix, find_cell, insert_cell, is_false, set_cell, or_false, get_cell, is_stored, contains_key,
  entry_or_false,
}

pub find-insert_cell :
    (x t : Tuple) (v : CircuitBool) (cells : List (Tuple × CircuitBool))
    → find_cell x (insert_cell t v cells) ≡ (if same x t then some v else find_cell x cells)
unfolding find_cell insert_cell
find-insert_cell x t v [] = refl
find-insert_cell x t v ((u, b) ∷ cells) = elim (Bool-cases (same t u)) [
  | inl e ↦
      let p : same x t ≡ same x u = ap (same x) (same→eq t u e) in rw (e, p) (by_cases (same x u))
  | inr e ↦ elim (Bool-cases (before t u)) [
    | inl k ↦ rw (e, k) refl
    | inr k ↦ elim (Bool-cases (same x u)) [
      | inl q ↦ rw (e, k, q, apart q e) refl
      | inr q ↦ rw (e, k, q) (find-insert_cell x t v cells)
    ]
  ]
]
  where
    by_cases :
        (c : Bool)
        → (if c then some v else find_cell x cells)
          ≡ (if c then some v else (if c then some b else find_cell x cells))
    by_cases true = refl
    by_cases false = refl

    apart : same x u ≡ true → same t u ≡ false → same x t ≡ false
    apart q e = elim (Bool-cases (same x t)) [
      | inr p ↦ p
      | inl p ↦ absurd (cc (subst (λ y. same y u ≡ true) (same→eq x t p) q, e))
    ]

or_false-if :
    (c : Bool) (v : CircuitBool) (o : Option CircuitBool)
    → or_false (if c then some v else o) ≡ (if c && true then v else or_false o)
or_false-if true v o = refl
or_false-if false v o = refl

unchanged : (c : Bool) (v b : CircuitBool) → b ≡ (if c && false then v else b)
unchanged true v b = refl
unchanged false v b = refl

pub inserted-get :
    (m : Matrix) (t x : Tuple) (v : CircuitBool)
    → get_cell (record m { cells = insert_cell t v m.cells }) x
      ≡ (if same x t && true then v else get_cell m x)
unfolding get_cell
inserted-get m t x v =
    ap or_false (find-insert_cell x t v m.cells) ∙ or_false-if (same x t) v (find_cell x m.cells)

pub set_cell_lem :
    (m : Matrix) (t x : Tuple) (v : CircuitBool)
    → get_cell (set_cell m t v) x ≡ (if same x t && not (is_false v) then v else get_cell m x)
unfolding set_cell
set_cell_lem m t x (const false) = unchanged (same x t) (const false) (get_cell m x)
set_cell_lem m t x (const true) = inserted-get m t x (const true)
set_cell_lem m t x (lit l) = inserted-get m t x (lit l)

-- A slot that is added holds what an absent cell reads as.
pub entry_lem :
    (m : Matrix) (t x : Tuple)
    → (get_cell (entry_or_false m t) x ≡ get_cell m x)
      × (contains_key (entry_or_false m t) t ≡ true)
unfolding entry_or_false contains_key get_cell
entry_lem m t x = from_slot (find_cell t m.cells) refl
  where
    from_slot :
        (o : Option CircuitBool)
        → find_cell t m.cells ≡ o
        → (get_cell (entry_or_false m t) x ≡ get_cell m x)
          × (contains_key (entry_or_false m t) t ≡ true)
    from_slot (some b) e = rw e (refl, ap is_stored e)
    from_slot none e = rw e (
      elim (Bool-cases (same x t)) [
        | inl q ↦
            let absent : find_cell x m.cells ≡ none =
              ap (λ y. find_cell y m.cells) (same→eq x t q) ∙ e in
            ap or_false (find-insert_cell x t (const false) m.cells)
            ∙ (rw q (ap or_false (sym absent)))
        | inr q ↦ ap or_false (find-insert_cell x t (const false) m.cells) ∙ (rw q refl)
      ],
      ap is_stored (find-insert_cell t t (const false) m.cells) ∙ rw (same_refl t) refl,
    )

-- After set a cell is the value at its tuple and unchanged elsewhere, except that a constant false
-- changes nothing; the slot of entry_or_false leaves every cell as it reads and is stored.
pub matrix_updates :
    (m : Matrix) (t x : Tuple) (v : CircuitBool)
    → (get_cell (set_cell m t v) x ≡ (if same x t && not (is_false v) then v else get_cell m x))
      × (get_cell (entry_or_false m t) x ≡ get_cell m x)
      × (contains_key (entry_or_false m t) t ≡ true)
matrix_updates m t x v = (set_cell_lem m t x v, (entry_lem m t x).0, (entry_lem m t x).1)
