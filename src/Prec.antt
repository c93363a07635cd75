-- ===== src/Prec.antt =====
-- crates/als-syntax/src/prec.rs: the binding powers that parser and printer share, and the budget
-- for a binder as the last operand. The powers and the budgets are bytes.
pub mod Tiers
mod Tests
use mettle.Base.{ℕ, Bool, true, false, if◌then◌else◌, ltb, leb, Option}

-- Of crates/als-syntax/src/ast.rs.
pub data BinOp : Type 0 where
  logical_or : BinOp
  logical_and : BinOp
  logical_iff : BinOp
  logical_implies : BinOp
  until : BinOp
  releases : BinOp
  since : BinOp
  triggered : BinOp
  seq : BinOp
  join : BinOp
  rel_union : BinOp
  diff : BinOp
  rel_intersect : BinOp
  rel_override : BinOp
  dom_restrict : BinOp
  ran_restrict : BinOp
  shl : BinOp
  sha : BinOp
  shr : BinOp
  int_add : BinOp
  int_sub : BinOp
  int_mul : BinOp
  int_div : BinOp
  int_rem : BinOp

-- Of crates/als-syntax/src/ast.rs.
pub data CmpOp : Type 0 where
  cmp_eq : CmpOp
  cmp_in : CmpOp
  cmp_lt : CmpOp
  cmp_gt : CmpOp
  cmp_le : CmpOp
  cmp_ge : CmpOp

-- Of crates/als-syntax/src/ast.rs.
pub data Mult : Type 0 where
  mult_lone : Mult
  mult_one : Mult
  mult_some : Mult
  mult_set : Mult

abbrev pub bp_implies_r : ℕ
bp_implies_r = 10

abbrev pub arrow_powers : ℕ × ℕ
arrow_powers = (33, 32)

abbrev pub cmp_powers : ℕ × ℕ
cmp_powers = (18, 19)

abbrev pub join_powers : ℕ × ℕ
join_powers = (40, 41)

unfoldable pub binary_bp : BinOp → ℕ × ℕ
binary_bp logical_or = (6, 7)
binary_bp logical_and = (12, 13)
binary_bp logical_iff = (8, 9)
binary_bp logical_implies = (11, bp_implies_r)
binary_bp until = (14, 15)
binary_bp releases = (14, 15)
binary_bp since = (14, 15)
binary_bp triggered = (14, 15)
binary_bp seq = (3, 2)
binary_bp join = join_powers
binary_bp rel_union = (22, 23)
binary_bp diff = (22, 23)
binary_bp rel_intersect = (30, 31)
binary_bp rel_override = (28, 29)
binary_bp dom_restrict = (34, 35)
binary_bp ran_restrict = (36, 37)
binary_bp shl = (20, 21)
binary_bp sha = (20, 21)
binary_bp shr = (20, 21)
binary_bp int_add = (22, 23)
binary_bp int_sub = (22, 23)
binary_bp int_mul = (24, 25)
binary_bp int_div = (24, 25)
binary_bp int_rem = (24, 25)

unfoldable pub cmp_bp : CmpOp → ℕ × ℕ
cmp_bp op = cmp_powers

unfoldable pub arrow_bp : Option Mult → Option Mult → ℕ × ℕ
arrow_bp lhs rhs = arrow_powers

abbrev pub budget_none : ℕ
budget_none = 0

abbrev pub budget_hop : ℕ
budget_hop = 1

abbrev pub budget_top : ℕ
budget_top = 2

pub data BinderOperator : Type 0 where
  implies_operator : BinderOperator
  comparison : BinderOperator
  ordinary : BinderOperator

abbrev pub granted : BinderOperator → ℕ
granted implies_operator = budget_top
granted comparison = budget_none
granted ordinary = budget_hop

unfoldable pub child_binder_budget : ℕ → BinderOperator → ℕ
child_binder_budget budget op = if ltb budget budget_top then budget_none else granted op

unfoldable pub prefix_operand_budget : ℕ → ℕ
prefix_operand_budget budget = if leb budget_top budget then budget else budget_none
