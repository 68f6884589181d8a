-- ===== src/Middleend/PriorityConflict.antt =====
-- priority_conflict_pass.cpp: transitions of one state that race, and priorities that contradict the
-- order in which a parent and its substates are served.
pub mod Climbing
pub mod Contradictions
pub mod Races
mod Examples
use Prim.Native.String.{slice, ◌++◌ as str_append}
use fsmc.Common.{
  ℕ, zero, suc, ◌+◌, ◌/◌, ◌%◌, Bool, true, false, not, ◌&&◌, ◌||◌, String, str_eq, List, [], ◌∷◌,
  ◌++◌, Option, none, some, if◌then◌else◌, ltb, ◌==◌,
}
use fsmc.Ir.Trigger.{Trigger, signal, time, change, anonymous, duration_in_ms}
use fsmc.Ir.Model.{
  StateNode, TransitionEdge, FsmIr, HierarchicalPriority, is_empty, find_by_id, find_by_name,
}

-- std::to_string on a std::uint64_t, which has 20 digits at most.
unfoldable pub to_digits : ℕ → ℕ → String
to_digits zero n = ""
to_digits (suc places) n =
    let last = slice "0123456789" (n % 10) (n % 10 + 1) in
    let above = to_digits places (n / 10) in if ltb n 10 then last else str_append above last

unfoldable pub to_string : ℕ → String
to_string n = to_digits 20 n

unfoldable pub get_trigger_key : Trigger → String
get_trigger_key (signal signal_name) = str_append "signal:" signal_name
get_trigger_key anonymous = "anonymous"
get_trigger_key (time t) = str_append "time:" (to_string (duration_in_ms t))
get_trigger_key (change raw_expression) = str_append "change:" raw_expression

-- parent_id.value_or("")
abbrev pub parent_of : StateNode → String
parent_of s = elim s.parent_id [ none ↦ "" | some id ↦ id ]

-- The while loop of is_ancestor_of, with fuel; `none` means that the fuel ran out.
unfoldable pub climb : FsmIr → String → ℕ → String → Option Bool
climb ir parent_id zero curr_parent = none
climb ir parent_id (suc fuel) curr_parent =
    if is_empty curr_parent
    then some false
    else if str_eq curr_parent parent_id
    then some true
    else elim (find_by_id ir.states curr_parent) [
      | none ↦ some false
      | some p ↦ climb ir parent_id fuel (parent_of p)
    ]

unfoldable pub is_ancestor_of : FsmIr → ℕ → String → String → Option Bool
is_ancestor_of ir fuel parent_id child_id = elim (find_by_id ir.states child_id) [
  | none ↦ some false
  | some child ↦ climb ir parent_id fuel (parent_of child)
]

unfoldable pub resolve_id : FsmIr → String → String
resolve_id ir id_or_name = elim (find_by_id ir.states id_or_name) [
  | some s ↦ s.id
  | none ↦ elim (find_by_name ir.states id_or_name) [ some s ↦ s.id | none ↦ id_or_name ]
]

unfoldable pub source_of : FsmIr → TransitionEdge → String
source_of ir t = resolve_id ir (if is_empty t.source_id then t.source else t.source_id)

-- Peers.

-- state_transitions, whose order the standard leaves open, as the list of its entries in the order of
-- their insertion.
unfoldable pub push_back :
    String
    → TransitionEdge
    → List (String × List TransitionEdge)
    → List (String × List TransitionEdge)
push_back src t [] = (src, t ∷ []) ∷ []
push_back src t ((key, edges) ∷ m) =
    if str_eq key src then (key, edges ++ t ∷ []) ∷ m else (key, edges) ∷ push_back src t m

unfoldable pub state_transitions :
    FsmIr
    → List TransitionEdge
    → List (String × List TransitionEdge)
    → List (String × List TransitionEdge)
state_transitions ir [] m = m
state_transitions ir (t ∷ ts) m = state_transitions ir ts (push_back (source_of ir t) t m)

unfoldable pub guards_equal : TransitionEdge → TransitionEdge → Bool
guards_equal t1 t2 = elim t1.guard [
  | none ↦ elim t2.guard [ none ↦ true | some h ↦ false ]
  | some g ↦ elim t2.guard [ none ↦ false | some h ↦ str_eq g h ]
]

-- The two are reported.
unfoldable pub is_race : TransitionEdge → TransitionEdge → Bool
is_race t1 t2 =
    let k1 = get_trigger_key t1.trigger in
    str_eq k1 (get_trigger_key t2.trigger)
    && not (is_empty k1)
    && guards_equal t1 t2
    && (t1.priority == t2.priority)

-- What a warning names: the state, the trigger and the priority.
abbrev pub Race : Type 0
Race = String × String × ℕ

unfoldable pub races_with : String → TransitionEdge → List TransitionEdge → List Race
races_with state_name t1 [] = []
races_with state_name t1 (t2 ∷ ts) =
    let rest = races_with state_name t1 ts in
    if is_race t1 t2 then (state_name, get_trigger_key t1.trigger, t1.priority) ∷ rest else rest

unfoldable pub races_among : String → List TransitionEdge → List Race
races_among state_name [] = []
races_among state_name (t ∷ ts) = races_with state_name t ts ++ races_among state_name ts

unfoldable pub all_races : FsmIr → List (String × List TransitionEdge) → List Race
all_races ir [] = []
all_races ir ((state_id, edges) ∷ m) =
    let state_name : String = elim (find_by_id ir.states state_id) [
      | none ↦ state_id
      | some s ↦ s.name
    ] in
    races_among state_name edges ++ all_races ir m

-- Parents and substates.

-- An error for two transitions of which the first leaves an ancestor of the source of the second.
unfoldable pub contradicts : HierarchicalPriority → TransitionEdge → TransitionEdge → Bool
contradicts priority_policy t1 t2 =
    let k1 = get_trigger_key t1.trigger in
    str_eq k1 (get_trigger_key t2.trigger)
    && not (is_empty k1)
    && ltb 0 t1.priority
    && ltb 0 t2.priority
    && elim priority_policy [
      | HierarchicalPriority.outer_first ↦ ltb t2.priority t1.priority
      | HierarchicalPriority.inner_first ↦ ltb t1.priority t2.priority
    ]

-- Whether the pair is reported.
unfoldable pub check_pair : FsmIr → ℕ → TransitionEdge → TransitionEdge → Option Bool
check_pair ir fuel t1 t2 =
    let src1 = source_of ir t1 in
    let src2 = source_of ir t2 in
    if str_eq src1 src2 then some false else elim (is_ancestor_of ir fuel src1 src2) [
      | none ↦ none
      | some found ↦ some (found && contradicts ir.preemption_priority t1 t2)
    ]

-- What an error names: the child's source and priority, and the parent's.
pub record Contradiction : Type 0 where
  pub child : String
  pub child_priority : ℕ
  pub parent : String
  pub parent_priority : ℕ

unfoldable pub contradiction : FsmIr → TransitionEdge → TransitionEdge → Contradiction
contradiction ir t1 t2 = record {
  child = source_of ir t2;
  child_priority = t2.priority;
  parent = source_of ir t1;
  parent_priority = t1.priority;
}

-- The loop over `j`.
unfoldable pub check_row :
    FsmIr → ℕ → ℕ → TransitionEdge → ℕ → List TransitionEdge → Option (List Contradiction)
check_row ir fuel i t1 j [] = some []
check_row ir fuel i t1 j (t2 ∷ ts) =
    let rest = check_row ir fuel i t1 (suc j) ts in
    if i == j then rest else elim (check_pair ir fuel t1 t2) [
      | none ↦ none
      | some reported ↦ elim rest [
        | none ↦ none
        | some errors ↦ some (if reported then contradiction ir t1 t2 ∷ errors else errors)
      ]
    ]

-- The loop over `i`.
unfoldable pub check_all : FsmIr → ℕ → ℕ → List TransitionEdge → Option (List Contradiction)
check_all ir fuel i [] = some []
check_all ir fuel i (t1 ∷ ts) = elim (check_row ir fuel i t1 0 ir.transitions) [
  | none ↦ none
  | some errors ↦ elim (check_all ir fuel (suc i) ts) [
    | none ↦ none
    | some more ↦ some (errors ++ more)
  ]
]

abbrev pub is_nil : List Contradiction → Bool
is_nil [] = true
is_nil (x ∷ xs) = false

-- The warnings, the errors, and the result: fatal_conflict is set where an error is reported.
pub record Report : Type 0 where
  pub races : List Race
  pub contradictions : List Contradiction
  pub passed : Bool

unfoldable pub run : FsmIr → ℕ → Option Report
run ir fuel = elim (check_all ir fuel 0 ir.transitions) [
  | none ↦ none
  | some errors ↦ some (record {
    races = all_races ir (state_transitions ir ir.transitions []);
    contradictions = errors;
    passed = is_nil errors;
  })
]
