-- ===== src/Ir/GraphOps/Hierarchy.antt =====
-- fsm_graph_ops.cpp, normalize_hierarchy: what it makes of each state.
pub mod Idempotent
use mathlib.Core.List.{Memᴰ}
use fsmc.Common.{
  ℕ, ◌≡◌, inl, inr, refl, ◌∙◌, ap, sym, Bool, true, false, not, ◌&&◌, ◌||◌, String, str_eq, eq_iff,
  List, [], ◌∷◌, map, Option, none, some, if◌then◌else◌, Bool-cases, Option-cases, keep_if, arith,
  keep_if,
}
use fsmc.Ir.Model.{StateNode, TransitionEdge, FsmIr, is_empty, find_by_name, find_state}
use fsmc.Ir.GraphOps.{
  update_state, clear_parent, clear_unpinned, clear_initial, at_root, clear_sources, children_of,
  is_nil, composite_if, rebuild_children, normalize_states, normalize_hierarchy,
}
use fsmc.Ir.GraphOps.Update.{
  KeepsName, map_found, when, when_twice, find_by_name-update_state, find_by_name-map,
  update_state_same,
}

-- Some transition at the root scope starts in the state of this name.
abbrev pub starts : String → List TransitionEdge → Bool
starts n [] = false
starts n (t ∷ ts) = at_root t && str_eq t.source n || starts n ts

-- The state becomes a root: it is the initial state, or starts a transition at the root scope and
-- its parent is not pinned.
abbrev pub becomes_root : FsmIr → StateNode → Bool
becomes_root ir s =
    not (is_empty ir.initial_state) && str_eq ir.initial_state s.name
    || starts s.name ir.transitions && not s.pinned_parent

-- The state at the place in the hierarchy that it gets.
abbrev pub placed : FsmIr → StateNode → StateNode
placed ir s = if becomes_root ir s then record s { parent_state = "" } else s

clear_parent_name : KeepsName clear_parent
unfolding clear_parent
clear_parent_name s = refl

clear_unpinned_name : KeepsName clear_unpinned
unfolding clear_unpinned
clear_unpinned_name s = ground arith

clear_unpinned_twice : (s : StateNode) → clear_unpinned (clear_unpinned s) ≡ clear_unpinned s
unfolding clear_unpinned
clear_unpinned_twice s = ground arith

rebuild_children_name : (all : List StateNode) → KeepsName (rebuild_children all)
unfolding rebuild_children
rebuild_children_name all s = refl

find-clear_sources :
    (ts : List TransitionEdge) (n : String) (ss : List StateNode)
    → find_by_name (clear_sources ts ss) n
      ≡ map_found (when (starts n ts) clear_unpinned) (find_by_name ss n)
unfolding clear_sources
find-clear_sources [] n ss = ground arith
find-clear_sources (t ∷ ts) n ss =
    find-clear_sources ts n (if at_root t then update_state clear_unpinned t.source ss else ss)
    ∙ ap (map_found (when (starts n ts) clear_unpinned)) step
    ∙ when_twice clear_unpinned clear_unpinned_twice (at_root t && str_eq t.source n) (starts n ts)
        (find_by_name ss n)
  where
    step :
        find_by_name (if at_root t then update_state clear_unpinned t.source ss else ss) n
        ≡ map_found (when (at_root t && str_eq t.source n) clear_unpinned) (find_by_name ss n)
    step =
        ground (arith, find_by_name-update_state clear_unpinned clear_unpinned_name t.source n ss)

find-clear_initial :
    (ir : FsmIr) (n : String)
    → find_by_name (clear_initial ir) n
      ≡ map_found
          (when (not (is_empty ir.initial_state) && str_eq ir.initial_state n) clear_parent)
          (find_state ir n)
unfolding clear_initial
find-clear_initial ir n =
    ground
      (arith, find_by_name-update_state clear_parent clear_parent_name ir.initial_state n ir.states)

-- The states once the parents are cleared.
abbrev pub cleared : FsmIr → List StateNode
cleared ir = clear_sources ir.transitions (clear_initial ir)

pub find_by_name-name :
    (ss : List StateNode) (n : String) (s : StateNode) → find_by_name ss n ≡ some s → s.name ≡ n
unfolding find_by_name
find_by_name-name [] n s h = cc
find_by_name-name (x ∷ ss) n s h = ground (arith, find_by_name-name ss n s, eq_iff x.name n)

find-cleared :
    (ir : FsmIr) (n : String)
    → find_by_name (cleared ir) n ≡ map_found (placed ir) (find_state ir n)
unfolding clear_unpinned clear_parent
find-cleared ir n = elim (Option-cases (find_by_name ir.states n)) [
  | inl missing ↦
      ground
        (arith, find-clear_sources ir.transitions n (clear_initial ir), find-clear_initial ir n)
  | inr (s, found) ↦ ground (
    arith,
    find-clear_sources ir.transitions n (clear_initial ir),
    find-clear_initial ir n,
    find_by_name-name ir.states n s found,
  )
]

-- The identifiers of the states whose parent has this name, in the order of the states.
abbrev pub ids_below : String → List StateNode → List String
ids_below n ss = map (λ (c : StateNode). c.id) (keep_if (λ c. str_eq c.parent_state n) ss)

children_of-eq : (n : String) (ss : List StateNode) → children_of n ss ≡ ids_below n ss
unfolding children_of
children_of-eq n [] = refl
children_of-eq n (c ∷ cs) = ground (arith, children_of-eq n cs)

-- Names, parents and identifiers are what children are computed from.
pub children_of-rebuild :
    (all : List StateNode) (n : String) (ss : List StateNode)
    → children_of n (map (rebuild_children all) ss) ≡ children_of n ss
unfolding children_of rebuild_children
children_of-rebuild all n [] = refl
children_of-rebuild all n (c ∷ cs) = ground (arith, children_of-rebuild all n cs)

-- What normalizing makes of a state: its place in the hierarchy, and its children among the states
-- of the result.
abbrev pub settled : FsmIr → StateNode → StateNode
settled ir s =
    let ids = ids_below s.name (normalize_hierarchy ir).states in
    let composite = not (is_nil ids) || not (is_empty s.initial_sub_state) in
    record s {
      parent_state = if becomes_root ir s then "" else s.parent_state;
      children_ids = ids;
      is_composite = composite;
      kind = composite_if composite s.kind;
    }

ids_below-normalize :
    (ir : FsmIr) (n : String)
    → children_of n (cleared ir) ≡ ids_below n (normalize_hierarchy ir).states
unfolding normalize_hierarchy normalize_states
ids_below-normalize ir n =
    sym (children_of-rebuild (cleared ir) n (cleared ir))
    ∙ children_of-eq n (map (rebuild_children (cleared ir)) (cleared ir))

rebuild_children-settled :
    (ir : FsmIr) (s : StateNode) → rebuild_children (cleared ir) (placed ir s) ≡ settled ir s
unfolding rebuild_children
rebuild_children-settled ir s = elim (Bool-cases (becomes_root ir s)) [
  | inl root ↦ rw (root, ids_below-normalize ir s.name)
  | inr below ↦ rw (below, ids_below-normalize ir s.name)
]

-- The state that a lookup of any name finds after normalize_hierarchy is the one found before, with
-- an empty parent if it is the initial state, or starts a transition at the root scope and is not
-- pinned, with its own parent otherwise, and with as its children the identifiers, in order, of
-- the states of the result whose parent it is. It counts as composite exactly if it has a child or
-- names an initial sub-state, and an atomic state that is composite becomes of that kind.
pub find_state-normalize_hierarchy :
    (ir : FsmIr) (n : String)
    → find_state (normalize_hierarchy ir) n ≡ map_found (settled ir) (find_state ir n)
unfolding normalize_hierarchy normalize_states
find_state-normalize_hierarchy ir n =
    find_by_name-map (rebuild_children (cleared ir)) (rebuild_children_name (cleared ir)) n
      (cleared ir)
    ∙ ap (map_found (rebuild_children (cleared ir))) (find-cleared ir n)
    ∙ both (find_state ir n)
  where
    both :
        (o : Option StateNode)
        → map_found (rebuild_children (cleared ir)) (map_found (placed ir) o)
          ≡ map_found (settled ir) o
    both none = refl
    both (some s) = ap some (rebuild_children-settled ir s)
