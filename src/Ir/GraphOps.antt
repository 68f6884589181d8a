-- ===== src/Ir/GraphOps.antt =====
-- fsm_graph_ops.cpp: the operations that keep the machine's derived fields and its order.
pub mod Update
pub mod Hierarchy
pub mod Adjacency
pub mod Order
pub mod WellFormed
mod Examples
use fsmc.Common.{
  ℕ, zero, suc, ◌+◌, Bool, true, false, not, ◌||◌, ◌&&◌, String, str_eq, List, [], ◌∷◌, ◌++◌, map,
  Option, none, some, if◌then◌else◌, ltb, ◌==◌, contains,
}
use fsmc.Ir.Model.{
  StateNode, StateKind, TransitionEdge, FsmIr, ConcurrencySemantics, EventDispatchSemantics,
  OrthogonalConflictResolution, is_empty, find_state,
}

-- A write through the pointer that find_state_mut returns; on nullptr nothing happens.
pub update_state : (StateNode → StateNode) → String → List StateNode → List StateNode
update_state f name [] = []
update_state f name (s ∷ ss) = if str_eq s.name name then f s ∷ ss else s ∷ update_state f name ss

-- normalize_hierarchy

pub clear_parent : StateNode → StateNode
clear_parent s = record s { parent_state = "" }

pub clear_unpinned : StateNode → StateNode
unfolding clear_parent
clear_unpinned s = if s.pinned_parent then s else clear_parent s

pub clear_initial : FsmIr → List StateNode
unfolding update_state clear_parent
clear_initial ir =
    if is_empty ir.initial_state
    then ir.states
    else update_state clear_parent ir.initial_state ir.states

-- The transition starts at the root scope.
abbrev pub at_root : TransitionEdge → Bool
at_root t = is_empty t.parent_scope && not (is_empty t.source)

pub clear_sources : List TransitionEdge → List StateNode → List StateNode
unfolding update_state clear_unpinned
clear_sources [] ss = ss
clear_sources (t ∷ ts) ss =
    clear_sources ts (if at_root t then update_state clear_unpinned t.source ss else ss)

pub children_of : String → List StateNode → List String
children_of name [] = []
children_of name (c ∷ cs) =
    if str_eq c.parent_state name then c.id ∷ children_of name cs else children_of name cs

abbrev pub is_nil : List String → Bool
is_nil [] = true
is_nil (x ∷ xs) = false

abbrev pub composite_if : Bool → StateKind → StateKind
composite_if true StateKind.atomic = StateKind.composite
composite_if _ k = k

-- The loop body for the state `p`; `children_ids` and `is_composite` are the only fields written
-- that are read later, by the same state.
pub rebuild_children : List StateNode → StateNode → StateNode
unfolding children_of
rebuild_children all p =
    let ids = children_of p.name all in
    let composite = not (is_nil ids) || not (is_empty p.initial_sub_state) in
    record p { children_ids = ids; is_composite = composite; kind = composite_if composite p.kind }

pub normalize_states : FsmIr → List StateNode
normalize_states ir =
    let ss = clear_sources ir.transitions (clear_initial ir) in map (rebuild_children ss) ss

pub normalize_hierarchy : FsmIr → FsmIr
normalize_hierarchy ir = record ir { states = normalize_states ir }

-- rebuild_adjacency_indices

pub clear_edges : StateNode → StateNode
clear_edges s = record s { outgoing_transitions = []; incoming_transitions = [] }

abbrev pub holds : ℕ → List ℕ → Bool
holds i [] = false
holds i (x ∷ xs) = x == i || holds i xs

pub add_outgoing : ℕ → StateNode → StateNode
add_outgoing i s = record s { outgoing_transitions = s.outgoing_transitions ++ i ∷ [] }

pub add_incoming : ℕ → StateNode → StateNode
add_incoming i s = record s { incoming_transitions = s.incoming_transitions ++ i ∷ [] }

-- std::find guards the multi-source and multi-target endpoints.
pub add_outgoing_once : ℕ → StateNode → StateNode
unfolding add_outgoing
add_outgoing_once i s = if holds i s.outgoing_transitions then s else add_outgoing i s

pub add_incoming_once : ℕ → StateNode → StateNode
unfolding add_incoming
add_incoming_once i s = if holds i s.incoming_transitions then s else add_incoming i s

-- The endpoint `main`, unless it is empty.
pub add_main : (StateNode → StateNode) → String → List StateNode → List StateNode
unfolding update_state
add_main f main ss = if is_empty main then ss else update_state f main ss

-- The further endpoints, those that are not `main`.
pub add_others : (StateNode → StateNode) → String → List String → List StateNode → List StateNode
unfolding update_state
add_others f main [] ss = ss
add_others f main (x ∷ xs) ss =
    add_others f main xs (if str_eq x main then ss else update_state f x ss)

pub add_edge : ℕ → TransitionEdge → List StateNode → List StateNode
add_edge i t ss =
    let leaving =
      add_others (add_outgoing_once i) t.source t.source_ids
        (add_main (add_outgoing i) t.source ss) in
    add_others (add_incoming_once i) t.target t.target_ids
      (add_main (add_incoming i) t.target leaving)

pub add_edges : ℕ → List TransitionEdge → List StateNode → List StateNode
add_edges i [] ss = ss
add_edges i (t ∷ ts) ss = add_edges (suc i) ts (add_edge i t ss)

pub rebuild_adjacency_indices : FsmIr → FsmIr
rebuild_adjacency_indices ir = record ir {
  states = add_edges 0 ir.transitions (map clear_edges ir.states);
}
