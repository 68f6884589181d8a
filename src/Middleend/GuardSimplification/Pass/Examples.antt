-- ===== src/Middleend/GuardSimplification/Pass/Examples.antt =====
-- A machine with two guards, one that is never true, and instances of the theorems about the pass.
use fsmc.Common.{ℕ, ◌≡◌, refl, Bool, String, List, [], ◌∷◌, map, some, get_elem?, codes}
use fsmc.Ir.Guard.{not_op, and_op, or_op, GuardAstNode, nil, cons, atom, compound, eval, node_eq}
use fsmc.Ir.Guard.Printing.{to_cpp, print}
use fsmc.Ir.Trigger.{signal}
use fsmc.Ir.Model.{
  TransitionEdge, FsmIr, HierarchicalPriority, EventDispatchSemantics, OrthogonalConflictResolution,
}
use fsmc.Frontend.GuardParser.{parse_expression}
use fsmc.Frontend.GuardParser.Formulas.{
  Formula, type_text, atoms, meaning, IsName, IsPrintable, AllPrintable,
}
use fsmc.Middleend.GuardSimplification.{simplify_node}
use fsmc.Middleend.GuardSimplification.Meaning.{Literals}
use fsmc.Middleend.GuardSimplification.Pass.{run, warnings}
use fsmc.Middleend.GuardSimplification.Pass.ReadBack.{run_idempotent, run-parse_expression}

abbrev edge : String → GuardAstNode → TransitionEdge
edge target g = record {
  source = "Idle";
  target = target;
  source_id = "";
  target_id = "";
  source_ids = [];
  target_ids = [];
  event = "go";
  trigger = signal "go";
  guard = some (to_cpp g);
  guard_ast = some g;
  priority = 0;
  parent_scope = "";
}

-- !!ready && (ready || hot)
abbrev double : GuardAstNode
double = compound and_op (
    cons (compound not_op (cons (compound not_op (cons (atom "ready") nil)) nil))
      (cons (compound or_op (cons (atom "ready") (cons (atom "hot") nil))) nil))

-- hot && !true
abbrev never : GuardAstNode
never = compound and_op (cons (atom "hot") (cons (compound not_op (cons (atom "true") nil)) nil))

abbrev machine : FsmIr
machine = record {
  initial_state = "Idle";
  initial_state_id = "";
  concurrency = record {
    dispatch = EventDispatchSemantics.single_event_run_to_completion;
    orthogonal_conflict = OrthogonalConflictResolution.interleaved;
  };
  states = [];
  transitions = edge "Run" double ∷ edge "Off" never ∷ [];
  choice_nodes = [];
  preemption_priority = HierarchicalPriority.outer_first;
}

warned : (run machine).1 ≡ ("Idle", "Off") ∷ []
unfolding run warnings to_cpp print simplify_node node_eq
warned = refl

double-IsPrintable : IsPrintable double
unfolding IsPrintable AllPrintable
double-IsPrintable = (tt, (ready, ((tt, (ready, (hot, tt))), tt)))
  where
    ready : IsName "ready"
    ready = record { valid = record { words = refl; start = refl; ending = refl }; written = refl }

    hot : IsName "hot"
    hot = record { valid = record { words = refl; start = refl; ending = refl }; written = refl }

run_idempotent_example : run (run machine).0 ≡ run machine
run_idempotent_example = run_idempotent machine

run-parse_expression_example :
    (t' : TransitionEdge) × (text : String) × (f : Formula) × (get_elem?
        (run machine).0.transitions
        0
      ≡ some t')
    × (t'.guard ≡ some text)
    × (parse_expression (codes text)
        ≡ some (record {
          cpp_type = type_text f;
          atomic_guards = atoms f;
          atomic_guard_details = map (λ (a : List ℕ). (a, a)) (atoms f);
        }))
    × ((value : String → Bool) → Literals value → meaning value f ≡ eval value double)
run-parse_expression_example =
    run-parse_expression machine 0 (edge "Run" double) double refl refl double-IsPrintable
