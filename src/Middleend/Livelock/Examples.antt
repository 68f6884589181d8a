-- ===== src/Middleend/Livelock/Examples.antt =====
-- Machines with a zero-time cycle, and instances of the theorems.
use fsmc.Common.{◌≡◌, ◌↔◌, refl, Bool, true, false, String, List, [], ◌∷◌, none, some}
use fsmc.Ir.Trigger.{signal, anonymous, Trigger}
use fsmc.Ir.Model.{
  StateNode, StateKind, TransitionEdge, FsmIr, find_by_id, find_by_name, HierarchicalPriority,
  EventDispatchSemantics, OrthogonalConflictResolution,
}
use fsmc.Middleend.Livelock.{
  is_zero_time_transition, resolve_state_id, source_of, target_of, adjacent, zero_adj, shown, enter,
  leave, report_cycle, scan, dfs, search_all, names, run,
}
use fsmc.Middleend.Livelock.Correct.{Livelock, FirstShown, run-Livelock}

abbrev state : String → StateNode
state name = record {
  id = name;
  name = name;
  kind = StateKind.atomic;
  parent_state = "";
  children_ids = [];
  is_composite = false;
  pinned_parent = false;
  initial_sub_state = "";
  outgoing_transitions = [];
  incoming_transitions = [];
  deferred_events = [];
  parent_id = none;
}

abbrev edge : String → String → String → Trigger → TransitionEdge
edge source target event trigger = record {
  source = source;
  target = target;
  source_id = "";
  target_id = "";
  source_ids = [];
  target_ids = [];
  event = event;
  trigger = trigger;
  guard = none;
  guard_ast = none;
  priority = 0;
  parent_scope = "";
}

abbrev machine : List StateNode → List TransitionEdge → FsmIr
machine states transitions = record {
  initial_state = "Loop";
  initial_state_id = "";
  concurrency = record {
    dispatch = EventDispatchSemantics.single_event_run_to_completion;
    orthogonal_conflict = OrthogonalConflictResolution.interleaved;
  };
  states = states;
  transitions = transitions;
  choice_nodes = [];
  preemption_priority = HierarchicalPriority.outer_first;
}

abbrev looping : FsmIr
looping =
    machine (state "Loop" ∷ state "Entry" ∷ [])
      (edge "Loop" "Loop" "" anonymous ∷ edge "Entry" "Loop" "" anonymous ∷ [])

-- The second message names `Entry`, which is on no cycle: after a first cycle the path is kept.
run-looping :
    run looping ≡ some (false, ("Loop" ∷ "Loop" ∷ []) ∷ ("Loop" ∷ "Entry" ∷ "Loop" ∷ []) ∷ [])
unfolding run search_all dfs scan enter leave report_cycle shown zero_adj adjacent source_of
    target_of resolve_state_id is_zero_time_transition names find_by_id find_by_name
run-looping = refl

abbrev waiting : FsmIr
waiting =
    machine (state "Loop" ∷ state "Entry" ∷ [])
      (edge "Loop" "Entry" "go" (signal "go") ∷ edge "Entry" "Loop" "" anonymous ∷ [])

run-waiting : run waiting ≡ some (true, [])
unfolding run search_all dfs scan enter leave report_cycle shown zero_adj adjacent source_of
    target_of resolve_state_id is_zero_time_transition names find_by_id find_by_name
run-waiting = refl

run-Livelock_example :
    (ok : Bool) × (reports : List (List String)) × (run looping ≡ some (ok, reports))
    × ((ok ≡ true) ↔ ¬ Livelock looping)
    × (ok ≡ false → FirstShown looping looping.states reports)
run-Livelock_example = run-Livelock looping
