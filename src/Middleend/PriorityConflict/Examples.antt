-- ===== src/Middleend/PriorityConflict/Examples.antt =====
-- A region with a substate of its own priority, a state that is its own parent, and instances of the theorems.
use fsmc.Common.{
  ℕ, ◌<◌, ◌≡◌, ◌≢◌, ◌↔◌, refl, sym, inl, inr, false, String, str_eq, eq_iff, List, [], ◌∷◌, Option,
  none, some, if◌then◌else◌, Bool-cases, arith,
}
use mathlib.Core.Path.{subst}
use mathlib.Core.List.{Memᴰ}
use fsmc.Middleend.PriorityConflict.Races.{race_of, name_of, run-IsRace}
use fsmc.Ir.Trigger.{signal}
use fsmc.Ir.Model.{
  StateNode, StateKind, TransitionEdge, FsmIr, HierarchicalPriority, EventDispatchSemantics,
  OrthogonalConflictResolution, find_by_id, is_empty,
}
use fsmc.Middleend.PriorityConflict.{
  run, check_all, check_row, check_pair, is_ancestor_of, climb, source_of, resolve_id, contradicts,
  contradiction, get_trigger_key, to_string, to_digits, all_races, races_among, races_with, is_race,
  guards_equal, state_transitions, push_back, Report, parent_of,
}
use fsmc.Middleend.PriorityConflict.Climbing.{Falls, IsTrap, is_ancestor_of_diverges}
use fsmc.Middleend.PriorityConflict.Contradictions.Pairs.{Contradicts}
use fsmc.Middleend.PriorityConflict.Contradictions.{run-Contradicts}

abbrev state : String → Option String → StateNode
state name parent = record {
  id = name;
  name = name;
  kind = StateKind.atomic;
  parent_state = "";
  children_ids = [];
  is_composite = false;
  pinned_parent = false;
  initial_sub_state = "";
  outgoing_transitions = [];
  incoming_transitions = [];
  deferred_events = [];
  parent_id = parent;
}

abbrev edge : String → ℕ → TransitionEdge
edge source priority = record {
  source = source;
  target = "Off";
  source_id = "";
  target_id = "";
  source_ids = [];
  target_ids = [];
  event = "go";
  trigger = signal "go";
  guard = none;
  guard_ast = none;
  priority = priority;
  parent_scope = "";
}

abbrev machine_of : List StateNode → List TransitionEdge → FsmIr
machine_of states transitions = record {
  initial_state = "";
  initial_state_id = "";
  concurrency = record {
    dispatch = EventDispatchSemantics.single_event_run_to_completion;
    orthogonal_conflict = OrthogonalConflictResolution.interleaved;
  };
  states = states;
  transitions = transitions;
  choice_nodes = [];
  preemption_priority = HierarchicalPriority.outer_first;
}

abbrev machine : FsmIr
machine =
    machine_of (state "Run" none ∷ state "Fast" (some "Run") ∷ [])
      (edge "Run" 2 ∷ edge "Fast" 1 ∷ edge "Run" 2 ∷ [])

digits : to_string 18446744073709551615 ≡ "18446744073709551615"
unfolding to_string to_digits
digits = refl

-- The two transitions of Run race, and that of Fast contradicts both.
reported :
    run machine 4
    ≡ some (record {
      races = ("Run", "signal:go", 2) ∷ [];
      contradictions =
          record { child = "Fast"; child_priority = 1; parent = "Run"; parent_priority = 2 }
          ∷ record { child = "Fast"; child_priority = 1; parent = "Run"; parent_priority = 2 }
          ∷ [];
      passed = false;
    })
unfolding run check_all check_row check_pair is_ancestor_of climb source_of resolve_id contradicts
    contradiction get_trigger_key all_races races_among races_with is_race guards_equal
    state_transitions push_back find_by_id
reported = refl

abbrev report : Report
report = record {
  races = ("Run", "signal:go", 2) ∷ [];
  contradictions =
      record { child = "Fast"; child_priority = 1; parent = "Run"; parent_priority = 2 }
      ∷ record { child = "Fast"; child_priority = 1; parent = "Run"; parent_priority = 2 }
      ∷ [];
  passed = false;
}

-- The first and the last transition leave Run.
run-IsRace_example :
    Memᴰ (race_of (name_of machine (source_of machine (edge "Run" 2))) (edge "Run" 2)) report.races
unfolding source_of resolve_id find_by_id guards_equal
run-IsRace_example =
    run-IsRace machine 4 report reported (edge "Run" 2) (edge "Run" 2)
      (inl (refl, Memᴰ.tail (Memᴰ.head refl))) refl
      (record { triggers = refl; guards = refl; priorities = refl })

abbrev depth : String → ℕ
depth x = if str_eq x "Fast" then 2 else if str_eq x "Run" then 1 else 0

depth-Falls : Falls machine depth
unfolding find_by_id
depth-Falls x s named found = elim (Bool-cases (str_eq "Run" x)) [
  | inl hit ↦
      let same : state "Run" none ≡ s = cc (rw hit at found) in
      let name : "Run" ≡ x = (eq_iff "Run" x).0 hit in rw (← same, ← name) (omega arith)
  | inr miss ↦ elim (Bool-cases (str_eq "Fast" x)) [
    | inl hit ↦
        let same : state "Fast" (some "Run") ≡ s = cc (rw (miss, hit) at found) in
        let name : "Fast" ≡ x = (eq_iff "Fast" x).0 hit in rw (← same, ← name) (omega arith)
    | inr other ↦ absurd (cc (rw (miss, other) at found))
  ]
]

depth-lt : (x : String) → depth x < 4
depth-lt x = ground arith

run-Contradicts_example :
    (r : Report) × (run machine 4 ≡ some r)
    × ((r.passed ≡ false) ↔ (
        (t1 : TransitionEdge) × Memᴰ t1 machine.transitions
        × ((t2 : TransitionEdge) × Memᴰ t2 machine.transitions × Contradicts machine t1 t2)))
run-Contradicts_example = run-Contradicts machine depth depth-Falls 4 depth-lt

-- Loop is its own parent.
abbrev looping : FsmIr
looping = machine_of (state "Loop" (some "Loop") ∷ []) []

abbrev IsLoop : String → Type 0
IsLoop x = x ≡ "Loop"

IsLoop-IsTrap : IsTrap looping "Other" IsLoop
unfolding find_by_id
IsLoop-IsTrap x h =
    subst
      (λ y.
        (is_empty y ≡ false)
        × (y ≢ "Other")
        × ((s : StateNode) × (find_by_id looping.states y ≡ some s) × IsLoop (parent_of s)))
      (sym h)
      (
        refl,
        λ e. absurd (cc ((eq_iff "Loop" "Other").1 e)),
        (state "Loop" (some "Loop"), refl, refl),
      )

is_ancestor_of_diverges_example : is_ancestor_of looping 1000000 "Other" "Loop" ≡ none
unfolding find_by_id
is_ancestor_of_diverges_example =
    is_ancestor_of_diverges looping "Other" IsLoop IsLoop-IsTrap "Loop" (state "Loop" (some "Loop"))
      refl refl 1000000
