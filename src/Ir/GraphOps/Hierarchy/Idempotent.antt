-- ===== src/Ir/GraphOps/Hierarchy/Idempotent.antt =====
-- fsm_graph_ops.cpp: normalize_hierarchy is idempotent.
use fsmc.Common.{
  ◌≡◌, inl, inr, refl, ◌∙◌, ap, true, false, ◌&&◌, ◌||◌, String, str_eq, eq_iff, List, [], ◌∷◌, map,
  some, Bool-cases, Option-cases, arith,
}
use fsmc.Ir.Model.{StateNode, TransitionEdge, FsmIr, is_empty, find_by_name, find_state}
use fsmc.Ir.GraphOps.{
  clear_parent, clear_unpinned, clear_initial, at_root, clear_sources, rebuild_children,
  normalize_states, normalize_hierarchy,
}
use fsmc.Ir.GraphOps.Update.{map_found, update_state_same}
use fsmc.Ir.GraphOps.Hierarchy.{
  starts, cleared, find_by_name-name, children_of-rebuild, settled, find_state-normalize_hierarchy,
}

clear_sources_same :
    (ts : List TransitionEdge) (ss : List StateNode)
    → ((n : String)
        → starts n ts ≡ true
        → map_found clear_unpinned (find_by_name ss n) ≡ find_by_name ss n)
    → clear_sources ts ss ≡ ss
unfolding clear_sources
clear_sources_same [] ss h = refl
clear_sources_same (t ∷ ts) ss h = elim (Bool-cases (at_root t)) [
  | inl root ↦
      let own : (at_root t && str_eq t.source t.source || starts t.source ts) ≡ true =
        ground (arith, eq_iff t.source t.source) in
      rw (root, update_state_same clear_unpinned t.source ss (h t.source own))
        (clear_sources_same ts ss later)
  | inr below ↦ rw below (clear_sources_same ts ss later)
]
  where
    later :
        (n : String)
        → starts n ts ≡ true
        → map_found clear_unpinned (find_by_name ss n) ≡ find_by_name ss n
    later n e = h n (ground arith)

clear_parent_same : (s : StateNode) → s.parent_state ≡ "" → clear_parent s ≡ s
unfolding clear_parent
clear_parent_same s h = ground arith

clear_unpinned_same :
    (s : StateNode) → (s.pinned_parent ≡ false → s.parent_state ≡ "") → clear_unpinned s ≡ s
unfolding clear_unpinned
clear_unpinned_same s h = elim (Bool-cases s.pinned_parent) [
  | inl pinned ↦ ground arith
  | inr free ↦ ground (arith, clear_parent_same s (h free))
]

module _ (ir : FsmIr) where
  abbrev again : FsmIr
  again = normalize_hierarchy ir

  -- Clearing the parent of a state found in the result, if it has become a root, changes nothing.
  root_again :
      (f : StateNode → StateNode) (n : String)
      → ((s : StateNode) → s.name ≡ n → f (settled ir s) ≡ settled ir s)
      → map_found f (find_state again n) ≡ find_state again n
  root_again f n h = elim (Option-cases (find_state ir n)) [
    | inl missing ↦ rw (find_state-normalize_hierarchy ir n) (rw missing)
    | inr (s, found) ↦
        rw (find_state-normalize_hierarchy ir n)
          (rw found (ap some (h s (find_by_name-name ir.states n s found))))
  ]

  initial_again : clear_initial again ≡ again.states
  unfolding clear_initial normalize_hierarchy
  initial_again = elim (Bool-cases (is_empty ir.initial_state)) [
    | inl absent ↦ rw absent
    | inr given ↦ rw given (
        update_state_same clear_parent ir.initial_state again.states (
          root_again clear_parent ir.initial_state (λ s e.
            clear_parent_same (settled ir s) (ground (arith, eq_iff ir.initial_state s.name)))))
  ]

  sources_again :
      (n : String)
      → starts n ir.transitions ≡ true
      → map_found clear_unpinned (find_state again n) ≡ find_state again n
  sources_again n e = root_again clear_unpinned n (λ s same. own s (rw same e))
    where
      own :
          (s : StateNode)
          → starts s.name ir.transitions ≡ true
          → clear_unpinned (settled ir s) ≡ settled ir s
      own s k = clear_unpinned_same (settled ir s) (λ free. ground (arith, free))

  cleared-again : cleared again ≡ again.states
  unfolding normalize_hierarchy
  cleared-again = rw initial_again (clear_sources_same ir.transitions again.states sources_again)

rebuild_children_twice :
    (all ss : List StateNode)
    → map (rebuild_children (map (rebuild_children all) all)) (map (rebuild_children all) ss)
      ≡ map (rebuild_children all) ss
unfolding rebuild_children
rebuild_children_twice all [] = refl
rebuild_children_twice all (s ∷ ss) =
    ground (arith, children_of-rebuild all s.name all, rebuild_children_twice all ss)

normalize_states_twice :
    (ir : FsmIr) → normalize_states (normalize_hierarchy ir) ≡ normalize_states ir
unfolding normalize_states normalize_hierarchy
normalize_states_twice ir =
    ap (λ ss. map (rebuild_children ss) ss) (cleared-again ir)
    ∙ rebuild_children_twice (cleared ir) (cleared ir)

-- Normalizing a second time changes nothing.
pub normalize_hierarchy_idempotent :
    (ir : FsmIr) → normalize_hierarchy (normalize_hierarchy ir) ≡ normalize_hierarchy ir
unfolding normalize_hierarchy
normalize_hierarchy_idempotent ir = ap (λ ss. record ir { states = ss }) (normalize_states_twice ir)
