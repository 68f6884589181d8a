-- ===== src/Middleend/Livelock.antt =====
-- livelock_analysis_pass.cpp: a depth-first search for cycles of transitions that take no time.
pub mod Steps
pub mod Walks
pub mod Ends
pub mod Reports
pub mod Invariant
pub mod Correct
mod Examples
use fsmc.Common.{
  ℕ, zero, suc, ◌+◌, Bool, true, false, not, ◌||◌, ◌&&◌, String, str_eq, List, [], ◌∷◌, ◌++◌, map,
  Option, none, some, if◌then◌else◌, length, ◌==◌,
}
use fsmc.Ir.Trigger.{Trigger, signal, time, change, anonymous, duration_in_ms}
use fsmc.Ir.Model.{StateNode, TransitionEdge, FsmIr, is_empty, find_by_id, find_by_name}

pub is_eventless : String → Bool
is_eventless event =
    is_empty event
    || (str_eq event "anonymous_event"
        || (str_eq event "completion_event"
            || (str_eq event "AnonymousEvent" || str_eq event "anonymous")))

pub takes_no_time : Trigger → Bool
takes_no_time (signal name) = is_empty name
takes_no_time (time t) = duration_in_ms t == 0 && t.duration_value == 0
takes_no_time (change predicate) = false
takes_no_time anonymous = true

pub is_zero_time_transition : TransitionEdge → Bool
unfolding is_eventless takes_no_time
is_zero_time_transition edge = if is_eventless edge.event then takes_no_time edge.trigger else false

pub resolve_state_id : FsmIr → String → String
resolve_state_id ir id_or_name = elim (find_by_id ir.states id_or_name) [
  | some s ↦ s.id
  | none ↦ elim (find_by_name ir.states id_or_name) [ some s ↦ s.id | none ↦ id_or_name ]
]

pub source_of : FsmIr → TransitionEdge → String
source_of ir e = resolve_state_id ir (if is_empty e.source_id then e.source else e.source_id)

pub target_of : FsmIr → TransitionEdge → String
target_of ir e = resolve_state_id ir (if is_empty e.target_id then e.target else e.target_id)

-- `zero_adj[u]`: the targets that the loop over the transitions pushes under the key `u`.
pub adjacent : FsmIr → List TransitionEdge → String → List String
adjacent ir [] u = []
adjacent ir (e ∷ es) u =
    let src = source_of ir e in
    let dst = target_of ir e in
    if is_zero_time_transition e && (not (is_empty src) && (not (is_empty dst) && str_eq src u))
    then dst ∷ adjacent ir es u
    else adjacent ir es u

pub zero_adj : FsmIr → String → List String
zero_adj ir u = adjacent ir ir.transitions u

-- 0 is unvisited, 1 is being visited, 2 is finished.
pub data Color : Type 0 where
  white gray black : Color

-- `reports` holds the names that each message joins with arrows.
pub record Search : Type 0 where
  pub color : String → Color
  pub path : List String
  pub reports : List (List String)

abbrev pub paint : String → Color → (String → Color) → String → Color
paint u c color x = if str_eq u x then c else color x

abbrev pub drop_last : List String → List String
drop_last [] = []
drop_last (x ∷ []) = []
drop_last (x ∷ y ∷ r) = x ∷ drop_last (y ∷ r)

-- What is left from std::find on.
abbrev pub drop_to : String → List String → List String
drop_to v [] = []
drop_to v (x ∷ r) = if str_eq x v then x ∷ r else drop_to v r

pub shown : FsmIr → String → String
shown ir id = elim (find_by_id ir.states id) [ some s ↦ s.name | none ↦ id ]

pub enter : String → Search → Search
enter u s = record s { color = paint u gray s.color; path = s.path ++ u ∷ [] }

pub leave : String → Search → Search
leave u s = record s { path = drop_last s.path; color = paint u black s.color }

pub report_cycle : FsmIr → String → Search → Search
report_cycle ir v s = record s {
  reports = s.reports ++ map (shown ir) (drop_to v s.path ++ v ∷ []) ∷ [];
}

-- The loop over the successors of a state, where `call` is the search from a further state.
pub scan :
    FsmIr
    → (String → Search → Option (Bool × Search))
    → List String
    → Search
    → Option (Bool × Search)
scan ir call [] s = some (false, s)
scan ir call (v ∷ vs) s = elim (s.color v) [
  | gray ↦ some (true, report_cycle ir v s)
  | white ↦ elim (call v s) [
    | none ↦ none
    | some (found, s') ↦ elim found [ true ↦ some (true, s') | false ↦ scan ir call vs s' ]
  ]
  | black ↦ scan ir call vs s
]

-- The lambda `dfs`, with fuel; `none` means that the fuel ran out.
pub dfs : FsmIr → ℕ → String → Search → Option (Bool × Search)
dfs ir zero u s = none
dfs ir (suc fuel) u s = elim (scan ir (dfs ir fuel) (zero_adj ir u) (enter u s)) [
  | none ↦ none
  | some (found, s') ↦ elim found [ true ↦ some (true, s') | false ↦ some (false, leave u s') ]
]

-- The loop over the states.
pub search_all : FsmIr → ℕ → List StateNode → Bool → Search → Option (Bool × Search)
search_all ir fuel [] has_livelock s = some (has_livelock, s)
search_all ir fuel (x ∷ xs) has_livelock s = elim (s.color x.id) [
  | white ↦ elim (dfs ir fuel x.id s) [
    | none ↦ none
    | some (found, s') ↦ search_all ir fuel xs (has_livelock || found) s'
  ]
  | _ ↦ search_all ir fuel xs has_livelock s
]

abbrev pub unvisited : Search
unvisited = record { color = λ u. white; path = []; reports = [] }

-- Every name that the search can visit. Its length bounds the depth of the search.
pub names : FsmIr → List String
names ir = map (λ (s : StateNode). s.id) ir.states ++ map (target_of ir) ir.transitions

-- The result, and the messages.
pub run : FsmIr → Option (Bool × List (List String))
run ir = elim (search_all ir (length (names ir) + 1) ir.states false unvisited) [
  | none ↦ none
  | some (has_livelock, s) ↦ some (not has_livelock, s.reports)
]
