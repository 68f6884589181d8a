-- ===== src/Middleend/GuardSimplification/Examples.antt =====
-- Runs of the guard simplification, and instances of its theorems.
use fsmc.Common.{◌≡◌, refl, Bool, true, false, String, str_eq, if◌then◌else◌}
use fsmc.Ir.Guard.{not_op, and_op, or_op, GuardAstNode, nil, cons, atom, compound, eval, node_eq}
use fsmc.Middleend.GuardSimplification.{simplify_node}
use fsmc.Middleend.GuardSimplification.Meaning.{Literals, eval-simplify_node}
use fsmc.Middleend.GuardSimplification.Shape.{is_simplified}
use fsmc.Middleend.GuardSimplification.Shape.Idempotent.{
  simplify_node-IsSimplified, simplify_node_idem,
}

-- !!ready && (true && ready) && (armed || false)
abbrev guard : GuardAstNode
guard = compound and_op (
    cons (compound not_op (cons (compound not_op (cons (atom "ready") nil)) nil)) (
      cons (compound and_op (cons (atom "true") (cons (atom "ready") nil)))
        (cons (compound or_op (cons (atom "armed") (cons (atom "false") nil))) nil)))

simplify_guard :
    simplify_node guard ≡ compound and_op (cons (atom "ready") (cons (atom "armed") nil))
unfolding simplify_node node_eq
simplify_guard = refl

abbrev readings : String → Bool
readings s = if str_eq s "ready" then true else if str_eq s "true" then true else false

readings-Literals : Literals readings
readings-Literals = record { value_true = refl; value_false = refl }

eval-simplify_node_example : eval readings (simplify_node guard) ≡ eval readings guard
eval-simplify_node_example = eval-simplify_node readings guard readings-Literals

simplify_node-IsSimplified_example : is_simplified (simplify_node guard) ≡ true
simplify_node-IsSimplified_example = simplify_node-IsSimplified guard

simplify_node_idem_example : simplify_node (simplify_node guard) ≡ simplify_node guard
simplify_node_idem_example = simplify_node_idem guard
