-- ===== src/Middleend/GuardSimplification.antt =====
-- guard_simplification_pass.cpp: algebraic simplification of guard trees.
pub mod Meaning
pub mod Shape
pub mod Pass
mod Examples
use fsmc.Common.{Bool, true, false, ◌&&◌, ◌||◌, String, str_eq, if◌then◌else◌}
use fsmc.Ir.Guard.{
  GuardOp, none, not_op, and_op, or_op, GuardAstNode, node, Children, nil, cons, op, children, atom,
  compound, op_eq, node_eq,
}

abbrev pub append : Children → Children → Children
append nil ds = ds
append (cons c cs) ds = cons c (append cs ds)

abbrev pub push_back : Children → GuardAstNode → Children
push_back cs c = append cs (cons c nil)

-- `item.op == GuardOp::None && item.expression == text`
pub is_literal : String → GuardAstNode → Bool
is_literal text (node o e cs) = op_eq o none && str_eq e text

-- std::find over the nodes kept so far.
pub contains : Children → GuardAstNode → Bool
contains nil item = false
contains (cons c cs) item = node_eq c item || contains cs item

-- The branch for Not, on its simplified child.
pub negate : GuardAstNode → GuardAstNode
negate (node not_op e (cons g gs)) = g
negate (node not_op e nil) = compound not_op (cons (node not_op e nil) nil)
negate (node none e cs) =
    if str_eq e "true"
    then atom "false"
    else if str_eq e "false"
    then atom "true"
    else compound not_op (cons (node none e cs) nil)
negate (node and_op e cs) = compound not_op (cons (node and_op e cs) nil)
negate (node or_op e cs) = compound not_op (cons (node or_op e cs) nil)

-- The children of a child with the same operator take its place.
pub flatten : GuardOp → Children → Children
flatten o nil = nil
flatten o (cons c cs) =
    if op_eq (op c) o then append (children c) (flatten o cs) else cons c (flatten o cs)

pub finish : GuardOp → String → Children → GuardAstNode
finish o neutral nil = atom neutral
finish o neutral (cons c nil) = c
finish o neutral (cons c (cons d ds)) = compound o (cons c (cons d ds))

-- A neutral literal and a node that is there already are skipped.
pub keep : String → Children → GuardAstNode → Children
unfolding is_literal contains
keep neutral cleaned item =
    if is_literal neutral item || contains cleaned item then cleaned else push_back cleaned item

-- The loop over the flattened operands. The source writes it twice: for And, `false` decides and
-- `true` is dropped; for Or the other way round.
pub clean : GuardOp → String → String → Children → Children → GuardAstNode
unfolding is_literal keep finish
clean o absorbing neutral nil cleaned = finish o neutral cleaned
clean o absorbing neutral (cons item items) cleaned =
    let rest = clean o absorbing neutral items (keep neutral cleaned item) in
    if is_literal absorbing item then atom absorbing else rest

-- A node from its operator, expression and children, and its simplified children.
pub combine : GuardOp → String → Children → Children → GuardAstNode
unfolding negate flatten clean
combine none e cs simplified = node none e cs
combine not_op e cs nil = node not_op e cs
combine not_op e cs (cons c _) = negate c
combine and_op e cs simplified = clean and_op "false" "true" (flatten and_op simplified) nil
combine or_op e cs simplified = clean or_op "true" "false" (flatten or_op simplified) nil

mutual
  unfolding combine

  pub simplify_node : GuardAstNode → GuardAstNode
  simplify_node (node o e cs) = combine o e cs (simplify_children cs)

  pub simplify_children : Children → Children
  simplify_children nil = nil
  simplify_children (cons c cs) = cons (simplify_node c) (simplify_children cs)
