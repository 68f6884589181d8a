-- ===== src/Middleend/DeadStatePruning.antt =====
-- dead_state_pruning_pass.cpp: states and transitions that its search does not come to are removed.
pub mod Edges
pub mod Successors
pub mod Correct
pub mod Preservation
pub mod Runs
pub mod WellFormed
mod Examples
use fsmc.Common.{
  ℕ, ◌+◌, ◌-◌, Bool, true, false, not, ◌||◌, ◌&&◌, String, str_eq, List, [], ◌∷◌, ◌++◌, map, Option,
  none, some, if◌then◌else◌, length, contains, keep_if, ltb,
}
use fsmc.Ir.Model.{StateNode, TransitionEdge, FsmIr, is_empty, find_state, is_final, is_choice_node}
use fsmc.Middleend.Worklist.{Search, loop, start}

pub first_name : List StateNode → String
first_name [] = ""
first_name (s ∷ ss) = s.name

-- Where the search begins; the empty text means nowhere.
pub root : FsmIr → String
unfolding first_name
root ir =
    let given = if is_empty ir.initial_state_id then ir.initial_state else ir.initial_state_id in
    if is_empty given then first_name ir.states else given

-- The guard is the text `false`.
pub is_static_false : TransitionEdge → Bool
is_static_false t = elim t.guard [ none ↦ false | some g ↦ str_eq g "false" ]

pub substates : List StateNode → String → List String
substates [] curr = []
substates (s ∷ ss) curr =
    if str_eq s.parent_state curr then s.name ∷ substates ss curr else substates ss curr

abbrev pub unless_empty : String → List String
unless_empty s = if is_empty s then [] else s ∷ []

-- The parent and the initial sub-state of the state that is expanded.
pub around : Option StateNode → List String
around none = []
around (some s) = unless_empty s.parent_state ++ unless_empty s.initial_sub_state

pub targets : List TransitionEdge → String → List String
targets [] curr = []
targets (t ∷ ts) curr =
    if str_eq t.source curr && not (is_static_false t) && not (is_empty t.target)
    then t.target ∷ targets ts curr
    else targets ts curr

-- The names that one round of the search visits, in its order.
pub successors : FsmIr → String → List String
unfolding substates around targets is_static_false
successors ir curr =
    substates ir.states curr ++ (around (find_state ir curr) ++ targets ir.transitions curr)

-- Every name that a round can visit. Its length bounds the rounds of the search.
pub names : FsmIr → List String
names ir =
    map (λ s. s.name) ir.states
    ++ (map (λ s. s.parent_state) ir.states
        ++ (map (λ s. s.initial_sub_state) ir.states ++ map (λ t. t.target) ir.transitions))

pub search : FsmIr → Option Search
unfolding successors
search ir = loop (successors ir) (length (names ir) + 1) (start (successors ir) (root ir))

pub keep_state : FsmIr → List String → StateNode → Bool
keep_state ir reachable s =
    if is_final s.kind || is_choice_node ir s.name then true else contains s.name reachable

pub keep_transition : List String → TransitionEdge → Bool
unfolding is_static_false
keep_transition reachable t =
    if is_static_false t then false else contains t.source reachable || is_empty t.source

-- The pass's result: the machine, and the counts that it reports, if it reports any.
pub record Outcome : Type 0 where
  pub ir : FsmIr
  pub report : Option (ℕ × ℕ)

pub pruned : FsmIr → List String → FsmIr
unfolding keep_state keep_transition
pruned ir reachable = record ir {
  states = keep_if (keep_state ir reachable) ir.states;
  transitions = keep_if (keep_transition reachable) ir.transitions;
}

pub prune_counts : FsmIr → FsmIr → Option (ℕ × ℕ)
prune_counts before after =
    let states = length before.states - length after.states in
    let transitions = length before.transitions - length after.transitions in
    if ltb 0 states || ltb 0 transitions then some (states, transitions) else none

pub finish : Bool → FsmIr → Search → Outcome
unfolding pruned prune_counts
finish prune ir t =
    if prune
    then record { ir = pruned ir t.reached; report = prune_counts ir (pruned ir t.reached) }
    else record { ir = ir; report = none }

-- `prune` is the pass's option prune_; `none` means that the fuel of the search ran out.
pub run : Bool → FsmIr → Option Outcome
unfolding finish search root
run prune ir =
    if is_empty (root ir)
    then some (record { ir = ir; report = none })
    else elim (search ir) [ none ↦ none | some t ↦ some (finish prune ir t) ]
