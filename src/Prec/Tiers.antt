-- ===== src/Prec/Tiers.antt =====
-- The binding powers of the infix operators against the precedence table of section 3 of
-- docs/reference/alloy6-grammar.md, and how far a binder's budget reaches.
use mettle.Base.{
  Option, ◌↔◌, ℕ, ap, ◌+◌, ◌*◌, ◌<◌, ◌≡◌, refl, arith, Bool, true, false, if◌then◌else◌, ◌==◌, ◌||◌,
  ltb,
}
use mettle.Prec.{
  BinOp, logical_or, logical_and, logical_iff, logical_implies, until, releases, since, triggered,
  seq, join, rel_union, diff, rel_intersect, rel_override, dom_restrict, ran_restrict, shl, sha,
  shr, int_add, int_sub, int_mul, int_div, int_rem, binary_bp, CmpOp, Mult, cmp_bp, arrow_bp,
  BinderOperator, implies_operator, comparison, ordinary, child_binder_budget,
  prefix_operand_budget, budget_none,
}

-- The level of an operator in the table, where the weakest is 1.
abbrev pub grammar_level : BinOp → ℕ
grammar_level logical_or = 3
grammar_level logical_and = 6
grammar_level logical_iff = 4
grammar_level logical_implies = 5
grammar_level until = 7
grammar_level releases = 7
grammar_level since = 7
grammar_level triggered = 7
grammar_level seq = 1
grammar_level join = 19
grammar_level rel_union = 11
grammar_level diff = 11
grammar_level rel_intersect = 15
grammar_level rel_override = 14
grammar_level dom_restrict = 17
grammar_level ran_restrict = 18
grammar_level shl = 10
grammar_level sha = 10
grammar_level shr = 10
grammar_level int_add = 11
grammar_level int_sub = 11
grammar_level int_mul = 12
grammar_level int_div = 12
grammar_level int_rem = 12

-- The operators between two operands.
pub data Infix : Type 0 where
  binary : BinOp → Infix
  compare : CmpOp → Infix
  arrow : Option Mult → Option Mult → Infix

abbrev pub infix_level : Infix → ℕ
infix_level (binary op) = grammar_level op
infix_level (compare op) = 9
infix_level (arrow lhs rhs) = 16

abbrev pub infix_bp : Infix → ℕ × ℕ
infix_bp (binary op) = binary_bp op
infix_bp (compare op) = cmp_bp op
infix_bp (arrow lhs rhs) = arrow_bp lhs rhs

-- The levels that the table has as right-associative.
abbrev pub is_right_level : ℕ → Bool
is_right_level n = (n == 1) || ((n == 5) || (n == 16))

-- The powers of a level: twice the level and one more, in the other order where the level is
-- right-associative. Nothing has the place after the 18th.
abbrev powers : ℕ → ℕ × ℕ
powers n =
    if is_right_level n
    then (n * 2 + 1, n * 2)
    else if ltb n 19
    then (n * 2, n * 2 + 1)
    else (n * 2 + 2, n * 2 + 3)

level-powers : (op : BinOp) → binary_bp op ≡ powers (grammar_level op)
unfolding binary_bp
level-powers logical_or = refl
level-powers logical_and = refl
level-powers logical_iff = refl
level-powers logical_implies = refl
level-powers until = refl
level-powers releases = refl
level-powers since = refl
level-powers triggered = refl
level-powers seq = refl
level-powers join = refl
level-powers rel_union = refl
level-powers diff = refl
level-powers rel_intersect = refl
level-powers rel_override = refl
level-powers dom_restrict = refl
level-powers ran_restrict = refl
level-powers shl = refl
level-powers sha = refl
level-powers shr = refl
level-powers int_add = refl
level-powers int_sub = refl
level-powers int_mul = refl
level-powers int_div = refl
level-powers int_rem = refl

infix_level-powers : (op : Infix) → infix_bp op ≡ powers (infix_level op)
unfolding cmp_bp arrow_bp
infix_level-powers (binary op) = level-powers op
infix_level-powers (compare op) = refl
infix_level-powers (arrow lhs rhs) = refl

-- Both powers of the first are below both of the second.
abbrev pub Looser : ℕ × ℕ → ℕ × ℕ → Type 0
Looser p q = (p.0 < q.0) × (p.0 < q.1) × (p.1 < q.0) × (p.1 < q.1)

-- Levels, their powers and their associativity go together.
levels_decide :
    (m n : ℕ)
    → ((m < n) ↔ Looser (powers m) (powers n))
      × ((m ≡ n) ↔ (powers m ≡ powers n))
      × ((is_right_level m ≡ true) ↔ ((powers m).1 < (powers m).0))
levels_decide m n = (
  ground arith,
  (λ e. ap powers e, λ e. ground (arith, ap (λ p. p.0) e, ap (λ p. p.1) e)),
  ground arith,
)

-- Of two infix operators (binary, comparison or arrow), the first has the weaker level of the
-- grammar's precedence table exactly when both its binding powers are below both powers of the
-- second, and the same level exactly when the powers are the same; an operator has a right-
-- associative level of the table exactly when its right power is below its left one.
pub infix_bp_levels :
    (a b : Infix)
    → ((infix_level a < infix_level b) ↔ Looser (infix_bp a) (infix_bp b))
      × ((infix_level a ≡ infix_level b) ↔ (infix_bp a ≡ infix_bp b))
      × ((is_right_level (infix_level a) ≡ true) ↔ ((infix_bp a).1 < (infix_bp a).0))
infix_bp_levels a b =
    rw (infix_level-powers a, infix_level-powers b) (levels_decide (infix_level a) (infix_level b))

abbrev pub is_implies : BinderOperator → Bool
is_implies implies_operator = true
is_implies comparison = false
is_implies ordinary = false

-- Below the last operand of an operator other than implies, no operator grants its last operand a
-- budget and no prefix passes one on; two prefixes in a row pass on what one does.
pub one_hop :
    (budget : ℕ) (outer inner : BinderOperator)
    → is_implies outer ≡ false
    → (child_binder_budget (child_binder_budget budget outer) inner ≡ budget_none)
      × (prefix_operand_budget (child_binder_budget budget outer) ≡ budget_none)
      × (prefix_operand_budget (prefix_operand_budget budget) ≡ prefix_operand_budget budget)
unfolding child_binder_budget prefix_operand_budget
one_hop budget implies_operator inner h = absurd (cc h)
one_hop budget comparison inner h = ground arith
one_hop budget ordinary inner h = ground arith
