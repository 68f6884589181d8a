-- ===== src/Ir/GraphOps/Examples.antt =====
-- A machine with a composite state, a join and priorities, and instances of the theorems.
use fsmc.Common.{ℕ, ◌≡◌, ◌↔◌, refl, false, String, List, [], ◌∷◌, none, map, keep_if}
use fsmc.Ir.Trigger.{signal}
use fsmc.Ir.Model.{
  StateNode, StateKind, TransitionEdge, FsmIr, find_state, HierarchicalPriority,
  EventDispatchSemantics, OrthogonalConflictResolution,
}
use fsmc.Ir.GraphOps.{
  normalize_states, clear_initial, clear_sources, rebuild_children, normalize_hierarchy,
  clear_edges, add_main, add_others, add_edge, add_edges, add_outgoing_once, add_incoming_once,
  rebuild_adjacency_indices,
}
use fsmc.Ir.GraphOps.Update.{map_found}
use fsmc.Ir.GraphOps.Hierarchy.{settled, find_state-normalize_hierarchy}
use fsmc.Ir.GraphOps.Hierarchy.Idempotent.{normalize_hierarchy_idempotent}
use fsmc.Ir.GraphOps.Adjacency.{indexed, find_state-rebuild_adjacency_indices}
use fsmc.Ir.GraphOps.Order.{stable_sort, source_order, precedes, sort_transitions_by_priority}
use fsmc.Ir.GraphOps.Order.Insertion.{Ordered}
use fsmc.Ir.GraphOps.Order.Priority.{Before, is_level, sort_transitions_by_priority-Ordered}
use fsmc.Ir.GraphOps.WellFormed.{IsWellFormed, is_well_formed, is_well_formed-IsWellFormed}

abbrev state : String → String → StateNode
state name parent = record {
  id = name;
  name = name;
  kind = StateKind.atomic;
  parent_state = parent;
  children_ids = [];
  is_composite = false;
  pinned_parent = false;
  initial_sub_state = "";
  outgoing_transitions = [];
  incoming_transitions = [];
  deferred_events = [];
  parent_id = none;
}

abbrev edge : String → String → List String → ℕ → String → TransitionEdge
edge source target sources priority scope = record {
  source = source;
  target = target;
  source_id = "";
  target_id = "";
  source_ids = sources;
  target_ids = [];
  event = "go";
  trigger = signal "go";
  guard = none;
  guard_ast = none;
  priority = priority;
  parent_scope = scope;
}

-- The text put `Idle` into the scope of `Run`.
abbrev machine : FsmIr
machine = record {
  initial_state = "Idle";
  initial_state_id = "";
  concurrency = record {
    dispatch = EventDispatchSemantics.single_event_run_to_completion;
    orthogonal_conflict = OrthogonalConflictResolution.interleaved;
  };
  states = state "Idle" "Run" ∷ state "Run" "" ∷ state "Left" "Run" ∷ state "Right" "Run" ∷ [];
  transitions =
      edge "Left" "Idle" ("Left" ∷ "Right" ∷ "Right" ∷ []) 0 "Run"
      ∷ edge "Idle" "Run" [] 2 ""
      ∷ edge "Left" "Right" [] 1 "Run"
      ∷ [];
  choice_nodes = [];
  preemption_priority = HierarchicalPriority.outer_first;
}

parents :
    map (λ (s : StateNode). s.parent_state) (normalize_hierarchy machine).states
    ≡ "" ∷ "" ∷ "Run" ∷ "Run" ∷ []
unfolding normalize_hierarchy normalize_states clear_initial clear_sources rebuild_children
parents = refl

children :
    map (λ (s : StateNode). s.children_ids) (normalize_hierarchy machine).states
    ≡ [] ∷ ("Left" ∷ "Right" ∷ []) ∷ [] ∷ [] ∷ []
unfolding normalize_hierarchy normalize_states clear_initial clear_sources rebuild_children
children = refl

outgoing :
    map (λ (s : StateNode). s.outgoing_transitions) (rebuild_adjacency_indices machine).states
    ≡ (1 ∷ []) ∷ [] ∷ (0 ∷ 2 ∷ []) ∷ (0 ∷ []) ∷ []
unfolding rebuild_adjacency_indices clear_edges add_edges add_edge add_main add_others
    add_outgoing_once add_incoming_once
outgoing = refl

sorted :
    map (λ (t : TransitionEdge). t.priority) (sort_transitions_by_priority machine).transitions
    ≡ 1 ∷ 0 ∷ 2 ∷ []
unfolding sort_transitions_by_priority stable_sort source_order precedes
sorted = refl

find_state-normalize_hierarchy_example :
    find_state (normalize_hierarchy machine) "Run"
    ≡ map_found (settled machine) (find_state machine "Run")
find_state-normalize_hierarchy_example = find_state-normalize_hierarchy machine "Run"

normalize_hierarchy_idempotent_example :
    normalize_hierarchy (normalize_hierarchy machine) ≡ normalize_hierarchy machine
normalize_hierarchy_idempotent_example = normalize_hierarchy_idempotent machine

find_state-rebuild_adjacency_indices_example :
    find_state (rebuild_adjacency_indices machine) "Right"
    ≡ map_found (indexed "Right" machine.transitions) (find_state machine "Right")
find_state-rebuild_adjacency_indices_example = find_state-rebuild_adjacency_indices machine "Right"

sort_transitions_by_priority-Ordered_example :
    Ordered (Before machine.transitions) (sort_transitions_by_priority machine).transitions
    × ((k : TransitionEdge)
        → keep_if (is_level k) (sort_transitions_by_priority machine).transitions
          ≡ keep_if (is_level k) machine.transitions)
sort_transitions_by_priority-Ordered_example = sort_transitions_by_priority-Ordered machine

is_well_formed-IsWellFormed_example : (is_well_formed machine ≡ none) ↔ IsWellFormed machine
is_well_formed-IsWellFormed_example = is_well_formed-IsWellFormed machine
