-- ===== src/Ir/Model.antt =====
-- fsm_ir.hpp, state_node.hpp, transition_edge.hpp and state_kind.hpp: the machine that the passes
-- work on, with the fields that the modelled passes read or write, and the lookups of fsm_ir.cpp.
use fsmc.Common.{
  ℕ, Bool, true, false, String, str_eq, List, [], ◌∷◌, Option, none, some, if◌then◌else◌, contains,
}
use fsmc.Ir.Guard.{GuardAstNode}
use fsmc.Ir.Trigger.{Trigger}

pub data StateKind : Type 0 where
  atomic composite parallel initial final shallow_history deep_history choice junction fork join
        entry_point exit_point terminate :
      StateKind

pub record StateNode : Type 0 where
  pub id : String
  pub name : String
  pub kind : StateKind
  pub parent_state : String
  pub children_ids : List String
  pub is_composite : Bool
  pub pinned_parent : Bool
  pub initial_sub_state : String
  pub outgoing_transitions : List ℕ
  pub incoming_transitions : List ℕ
  pub deferred_events : List String
  pub parent_id : Option String

pub record TransitionEdge : Type 0 where
  pub source : String
  pub target : String
  pub source_id : String
  pub target_id : String
  pub source_ids : List String
  pub target_ids : List String
  pub event : String
  pub trigger : Trigger
  pub guard : Option String
  pub guard_ast : Option GuardAstNode
  pub priority : ℕ
  pub parent_scope : String

pub data EventDispatchSemantics : Type 0 where
  single_event_run_to_completion synchronous_reactive active_object_asynchronous :
      EventDispatchSemantics

pub data OrthogonalConflictResolution : Type 0 where
  interleaved simultaneous_synchronous priority_ordered document_order :
      OrthogonalConflictResolution

pub data HierarchicalPriority : Type 0 where
  outer_first inner_first : HierarchicalPriority

pub record ConcurrencySemantics : Type 0 where
  pub dispatch : EventDispatchSemantics
  pub orthogonal_conflict : OrthogonalConflictResolution

-- `choice_nodes` holds the names of the choice nodes.
pub record FsmIr : Type 0 where
  pub initial_state : String
  pub initial_state_id : String
  pub concurrency : ConcurrencySemantics
  pub states : List StateNode
  pub transitions : List TransitionEdge
  pub choice_nodes : List String
  pub preemption_priority : HierarchicalPriority

abbrev pub is_empty : String → Bool
is_empty s = str_eq s ""

-- A lookup gives the first state of that name.
unfoldable pub find_by_name : List StateNode → String → Option StateNode
find_by_name [] name = none
find_by_name (s ∷ ss) name = if str_eq s.name name then some s else find_by_name ss name

abbrev pub find_state : FsmIr → String → Option StateNode
find_state ir name = find_by_name ir.states name

unfoldable pub find_by_id : List StateNode → String → Option StateNode
find_by_id [] id = none
find_by_id (s ∷ ss) id = if str_eq s.id id then some s else find_by_id ss id

abbrev pub is_choice : StateKind → Bool
is_choice choice = true
is_choice _ = false

abbrev pub is_final : StateKind → Bool
is_final final = true
is_final _ = false

unfoldable pub is_choice_node : FsmIr → String → Bool
is_choice_node ir name =
    if contains name ir.choice_nodes
    then true
    else elim (find_state ir name) [ none ↦ false | some s ↦ is_choice s.kind ]
