-- ===== src/Middleend/GuardSimplification/Pass.antt =====
-- guard_simplification_pass.cpp, run: the pass over the transitions, and that the text it writes is
-- read back with the meaning of the guard.
pub mod Printable
pub mod ReadBack
mod Examples
use fsmc.Common.{
  ◌≡◌, refl, ◌∙◌, ap, sym, Bool, true, false, ◌&&◌, String, str_eq, List, [], ◌∷◌, map, Option,
  none, some, if◌then◌else◌, codes,
}
use fsmc.Ir.Guard.{GuardAstNode, eval}
use fsmc.Ir.Guard.Printing.{to_cpp}
use fsmc.Ir.Model.{TransitionEdge, FsmIr}
use fsmc.Middleend.GuardSimplification.{simplify_node}

-- The body of the loop.
unfoldable pub simplify_edge : TransitionEdge → TransitionEdge
simplify_edge t = elim t.guard_ast [
  | none ↦ t
  | some g ↦ record t {
    guard_ast = some (simplify_node g);
    guard = some (to_cpp (simplify_node g));
  }
]

-- The source and the target that a warning names, where the simplified guard is `false`.
unfoldable pub warnings : List TransitionEdge → List (String × String)
warnings [] = []
warnings (t ∷ ts) = elim t.guard_ast [
  | none ↦ warnings ts
  | some g ↦
      if str_eq (to_cpp (simplify_node g)) "false"
      then (t.source, t.target) ∷ warnings ts
      else warnings ts
]

-- The machine, and the warnings.
unfoldable pub run : FsmIr → FsmIr × List (String × String)
run ir = (record ir { transitions = map simplify_edge ir.transitions }, warnings ir.transitions)
