-- ===== src/Prec/Tests.antt =====
-- The binding powers and the budget at some operators.
use mettle.Base.{◌≡◌, refl, ◌↔◌, ◌<◌, true, none}
use mettle.Prec.{seq, ordinary, comparison, child_binder_budget, prefix_operand_budget, budget_none}
use mettle.Prec.Tiers.{
  Looser, binary, arrow, infix_level, infix_bp, is_right_level, infix_bp_levels, one_hop,
}

infix_bp_levels_example :
    ((infix_level (binary seq) < infix_level (arrow none none))
      ↔ Looser (infix_bp (binary seq)) (infix_bp (arrow none none)))
    × ((infix_level (binary seq) ≡ infix_level (arrow none none))
        ↔ (infix_bp (binary seq) ≡ infix_bp (arrow none none)))
    × ((is_right_level (infix_level (binary seq)) ≡ true)
        ↔ ((infix_bp (binary seq)).1 < (infix_bp (binary seq)).0))
infix_bp_levels_example = infix_bp_levels (binary seq) (arrow none none)

one_hop_example :
    (child_binder_budget (child_binder_budget 2 ordinary) comparison ≡ budget_none)
    × (prefix_operand_budget (child_binder_budget 2 ordinary) ≡ budget_none)
    × (prefix_operand_budget (prefix_operand_budget 2) ≡ prefix_operand_budget 2)
one_hop_example = one_hop 2 ordinary comparison refl
