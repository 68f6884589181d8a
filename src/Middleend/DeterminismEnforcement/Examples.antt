-- ===== src/Middleend/DeterminismEnforcement/Examples.antt =====
-- A machine whose unconditional transitions have two priorities, and instances of the theorems.
use fsmc.Common.{text_lt, ◌≡◌, ◌↔◌, refl, String, ℕ, [], ◌∷◌, Option, none, some, keep_if}
use mathlib.Core.List.{Memᴰ}
use fsmc.Ir.Trigger.{signal}
use fsmc.Ir.Model.{
  TransitionEdge, FsmIr, HierarchicalPriority, EventDispatchSemantics, OrthogonalConflictResolution,
}
use fsmc.Ir.GraphOps.Order.Insertion.{Ordered}
use fsmc.Middleend.DeterminismEnforcement.{
  run, groups, fill, update, key_lt, key, keys_where, is_reported, is_unconditional,
  has_priority_tie, priority_counts, push_back, increment,
}
use fsmc.Middleend.DeterminismEnforcement.Warnings.{Conflict, rivals, run-Conflict}
use fsmc.Middleend.DeterminismEnforcement.Canonical.{Canonical, is_alike, run-Canonical}

abbrev edge : String → String → Option String → ℕ → TransitionEdge
edge source target guard priority = record {
  source = source;
  target = target;
  source_id = "";
  target_id = "";
  source_ids = [];
  target_ids = [];
  event = "go";
  trigger = signal "go";
  guard = guard;
  guard_ast = none;
  priority = priority;
  parent_scope = "";
}

abbrev machine : FsmIr
machine = record {
  initial_state = "Idle";
  initial_state_id = "";
  concurrency = record {
    dispatch = EventDispatchSemantics.single_event_run_to_completion;
    orthogonal_conflict = OrthogonalConflictResolution.interleaved;
  };
  states = [];
  transitions =
      edge "Run" "Idle" none 0
      ∷ edge "Idle" "Run" (some "hot") 3
      ∷ edge "Idle" "Off" none 2
      ∷ edge "Idle" "Halt" (some "dry") 3
      ∷ edge "Idle" "Wait" none 1
      ∷ [];
  choice_nodes = [];
  preemption_priority = HierarchicalPriority.outer_first;
}

-- The two unconditional transitions of Idle have two priorities; those that share one have a guard.
reported : (run machine).1 ≡ ("Idle", "go") ∷ []
unfolding run groups fill update key_lt key keys_where is_reported is_unconditional has_priority_tie
    priority_counts text_lt push_back increment
reported = refl

run-Conflict_example : Memᴰ ("Idle", "go") (run machine).1 ↔ Conflict (rivals machine "Idle" "go")
run-Conflict_example = run-Conflict machine "Idle" "go"

run-Canonical_example :
    Ordered Canonical (run machine).0.transitions
    × ((k : TransitionEdge)
        → keep_if (is_alike k) (run machine).0.transitions
          ≡ keep_if (is_alike k) machine.transitions)
run-Canonical_example = run-Canonical machine
