-- ===== src/Middleend/GuardSimplification/Shape.antt =====
-- guard_simplification_pass.cpp: the shape of a simplified guard.
pub mod Operands
pub mod Loop
pub mod Idempotent
use fsmc.Common.{
  ◌≡◌, refl, sym, ap, ◌∙◌, inl, inr, Bool, true, false, not, ◌&&◌, ◌||◌, String, str_eq, eq_iff,
  arith, if◌then◌else◌, Bool-cases, and_intro, and_left, and_right,
}
use fsmc.Ir.Guard.{
  GuardOp, none, not_op, and_op, or_op, GuardAstNode, node, Children, nil, cons, op, children, atom,
  compound, op_eq, node_eq,
}
use fsmc.Middleend.GuardSimplification.{
  append, push_back, is_literal, contains, negate, flatten, finish, keep, clean, combine,
  simplify_node, simplify_children,
}

pub is_constant : GuardAstNode → Bool
is_constant c = is_literal "true" c || is_literal "false" c

abbrev pub at_least_two : Children → Bool
at_least_two nil = false
at_least_two (cons c nil) = false
at_least_two (cons c (cons d ds)) = true

-- A negation is left over where the node below it is neither a constant nor a negation of an operand. A
-- negation with no operand, which the tree allows, may stand there.
pub negatable : GuardAstNode → Bool
unfolding is_constant
negatable (node not_op e nil) = true
negatable (node not_op e (cons g gs)) = false
negatable (node none e cs) = not (is_constant (node none e cs))
negatable (node and_op e cs) = true
negatable (node or_op e cs) = true

-- No operand has the operator itself, and none is a constant.
pub operands : GuardOp → Children → Bool
operands o nil = true
operands o (cons c cs) = not (op_eq (op c) o) && not (is_constant c) && operands o cs

-- No operand stands among those before it.
pub distinct : Children → Children → Bool
distinct seen nil = true
distinct seen (cons c cs) = not (contains seen c) && distinct (push_back seen c) cs

abbrev pub is_nil : Children → Bool
is_nil nil = true
is_nil (cons c cs) = false

mutual
  unfolding negatable operands distinct

  pub is_simplified : GuardAstNode → Bool
  is_simplified (node none e cs) = true
  is_simplified (node not_op e nil) = true
  is_simplified (node not_op e (cons c cs)) =
      str_eq e "" && is_nil cs && negatable c && is_simplified c
  is_simplified (node and_op e cs) =
      str_eq e "" && at_least_two cs && operands and_op cs && distinct nil cs && all_simplified cs
  is_simplified (node or_op e cs) =
      str_eq e "" && at_least_two cs && operands or_op cs && distinct nil cs && all_simplified cs

  pub all_simplified : Children → Bool
  all_simplified nil = true
  all_simplified (cons c cs) = is_simplified c && all_simplified cs

-- What the loop maintains of the nodes kept so far.
pub record IsClean (o : GuardOp) (cs : Children) : Type 0 where
  pub are_operands : operands o cs ≡ true
  pub are_distinct : distinct nil cs ≡ true
  pub are_simplified : all_simplified cs ≡ true

-- No operand has the operator itself: what flattening sees to.
pub foreign : GuardOp → Children → Bool
foreign o nil = true
foreign o (cons c cs) = not (op_eq (op c) o) && foreign o cs
