-- ===== src/Matrix/Tests.antt =====
-- Updates of a small matrix.
use mettle.Base.{◌≡◌, refl, true, false, not, ◌&&◌, if◌then◌else◌, [], ◌∷◌}
use mettle.Circuit.{const, lit}
use mettle.Bounds.{same}
use mettle.Matrix.{Matrix, is_false, set_cell, get_cell, contains_key, entry_or_false}
use mettle.Matrix.Cells.{matrix_updates}

abbrev cells_two : Matrix
cells_two = record { arity = 1; cells = (0 ∷ [], lit 4) ∷ (2 ∷ [], lit 6) ∷ [] }

false_does_not_clear : get_cell (set_cell cells_two (0 ∷ []) (const false)) (0 ∷ []) ≡ lit 4
unfolding get_cell set_cell
false_does_not_clear = refl

matrix_updates_example :
    (get_cell (set_cell cells_two (1 ∷ []) (lit 8)) (1 ∷ []) ≡ (
      if same (1 ∷ []) (1 ∷ []) && not (is_false (lit 8))
      then lit 8
      else get_cell cells_two (1 ∷ [])))
    × (get_cell (entry_or_false cells_two (1 ∷ [])) (1 ∷ []) ≡ get_cell cells_two (1 ∷ []))
    × (contains_key (entry_or_false cells_two (1 ∷ [])) (1 ∷ []) ≡ true)
matrix_updates_example = matrix_updates cells_two (1 ∷ []) (1 ∷ []) (lit 8)
