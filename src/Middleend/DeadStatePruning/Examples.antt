-- ===== src/Middleend/DeadStatePruning/Examples.antt =====
-- A machine with a dead state and a dead transition, and instances of the theorems about the pass.
use mathlib.Core.List.{Memᴰ}
use mathlib.Core.List.Memᴰ
use fsmc.Common.{
  ap, sym, ◌∙◌, ◌≡◌, refl, ◌↔◌, ◌≢◌, true, false, String, eq_iff, [], ◌∷◌, none, some, inl, inr,
  arith,
}
use fsmc.Ir.Model.{
  StateNode, StateKind, TransitionEdge, FsmIr, find_by_name, is_choice_node, HierarchicalPriority,
  EventDispatchSemantics, OrthogonalConflictResolution,
}
use fsmc.Ir.Trigger.{signal}
use fsmc.Middleend.Worklist.{loop, start}
use fsmc.Middleend.DeadStatePruning.{names, root, is_static_false, search, Outcome, run}
use fsmc.Middleend.DeadStatePruning.Correct.{StaysState, StaysTransition, run-Stays, run_returns}
use fsmc.Middleend.DeadStatePruning.Runs.{Run, begins, fires, IsForkFree, run-Run}
use fsmc.Middleend.DeadStatePruning.WellFormed.{IsEntered, run-is_well_formed}
use fsmc.Ir.GraphOps.WellFormed.{is_well_formed, dangles, check_transitions, is_valid}

abbrev state : String → String → StateNode
state name parent = record {
  id = name;
  name = name;
  kind = StateKind.atomic;
  parent_state = parent;
  children_ids = [];
  is_composite = false;
  pinned_parent = false;
  initial_sub_state = "";
  outgoing_transitions = [];
  incoming_transitions = [];
  deferred_events = [];
  parent_id = none;
}

abbrev edge : String → String → TransitionEdge
edge source target = record {
  source = source;
  target = target;
  source_id = "";
  target_id = "";
  source_ids = source ∷ [];
  target_ids = target ∷ [];
  event = "go";
  trigger = signal "go";
  guard = none;
  guard_ast = none;
  priority = 0;
  parent_scope = "";
}

abbrev machine : FsmIr
machine = record {
  initial_state = "Idle";
  initial_state_id = "";
  concurrency = record {
    dispatch = EventDispatchSemantics.single_event_run_to_completion;
    orthogonal_conflict = OrthogonalConflictResolution.interleaved;
  };
  states = state "Idle" "" ∷ state "Dead" "" ∷ state "Run" "" ∷ state "Inner" "Run" ∷ [];
  transitions = edge "Idle" "Run" ∷ edge "Dead" "Idle" ∷ edge "Run" "Idle" ∷ [];
  choice_nodes = [];
  preemption_priority = HierarchicalPriority.outer_first;
}

abbrev outcome : Outcome
outcome = record {
  ir = record machine {
    states = state "Idle" "" ∷ state "Run" "" ∷ state "Inner" "Run" ∷ [];
    transitions = edge "Idle" "Run" ∷ edge "Run" "Idle" ∷ [];
  };
  report = some (1, 1);
}

run-machine : run true machine ≡ some outcome
unfolding run search loop start names find_by_name is_choice_node
run-machine = refl

machine_rooted : root machine ≢ ""
unfolding root
machine_rooted e = ground (arith, eq_iff "Idle" "")

run-Stays_example :
    ((s : StateNode) → Memᴰ s outcome.ir.states ↔ (Memᴰ s machine.states × StaysState machine s))
    × ((e : TransitionEdge)
        → Memᴰ e outcome.ir.transitions ↔ (Memᴰ e machine.transitions × StaysTransition machine e))
run-Stays_example = run-Stays machine outcome machine_rooted run-machine

machine-IsForkFree : IsForkFree machine
machine-IsForkFree t v m n = elim (Memᴰ.cases_cons m) [
  | inl a ↦ only "Run" (rw a at n) ∙ sym (ap (λ (x : TransitionEdge). x.target) a)
  | inr m' ↦ elim (Memᴰ.cases_cons m') [
    | inl a ↦ only "Idle" (rw a at n) ∙ sym (ap (λ (x : TransitionEdge). x.target) a)
    | inr m'' ↦ elim (Memᴰ.cases_cons m'') [
      | inl a ↦ only "Idle" (rw a at n) ∙ sym (ap (λ (x : TransitionEdge). x.target) a)
      | inr nowhere ↦ absurd (Memᴰ.not-nil nowhere)
    ]
  ]
]
  where
    only : (w : String) → Memᴰ v (w ∷ []) → v ≡ w
    only w k = elim (Memᴰ.cases_cons k) [ inl e ↦ e | inr nowhere ↦ absurd (Memᴰ.not-nil nowhere) ]

run-Run_example :
    (Run outcome.ir ("Run" ∷ "Run" ∷ []) ↔ Run machine ("Run" ∷ "Run" ∷ []))
    × (Run machine ("Run" ∷ "Run" ∷ [])
        → (s : StateNode) → Memᴰ s machine.states
        → Memᴰ s.name ("Run" ∷ "Run" ∷ [])
        → Memᴰ s outcome.ir.states)
run-Run_example =
    run-Run machine outcome machine-IsForkFree machine_rooted run-machine ("Run" ∷ "Run" ∷ [])

-- The machine does come to that configuration.
machine-Run : Run machine ("Run" ∷ "Run" ∷ [])
unfolding root is_static_false
machine-Run =
    fires (edge "Idle" "Run") [] begins (Memᴰ.head refl)
      (record {
        source = Memᴰ.head refl;
        sources = λ v k. k;
        live = refl;
        target = λ e. ground (arith, eq_iff "Run" "");
      })
      (λ v k. absurd (Memᴰ.not-nil k))

-- The second target of the fork is entered, and pruned.
abbrev forking : FsmIr
forking = record machine {
  states = state "Idle" "" ∷ state "Left" "" ∷ state "Right" "" ∷ [];
  transitions = record (edge "Idle" "Left") { target_ids = "Left" ∷ "Right" ∷ [] } ∷ [];
}

forking_pruned :
    run true forking
    ≡ some (record {
      ir = record forking { states = state "Idle" "" ∷ state "Left" "" ∷ [] };
      report = some (1, 0);
    })
unfolding run search loop start names find_by_name is_choice_node
forking_pruned = refl

run_returns_example : (out : Outcome) × (run true machine ≡ some out)
run_returns_example = run_returns true machine

machine-IsEntered : IsEntered machine
machine-IsEntered = record { named = inl refl; sourced = λ t m. sourced t m }
  where
    sourced : (t : TransitionEdge) → Memᴰ t machine.transitions → t.source ≢ ""
    sourced t m e = elim (Memᴰ.cases_cons m) [
      | inl a ↦ ground (arith, eq_iff "Idle" "")
      | inr m' ↦ elim (Memᴰ.cases_cons m') [
        | inl a ↦ ground (arith, eq_iff "Dead" "")
        | inr m'' ↦ elim (Memᴰ.cases_cons m'') [
          | inl a ↦ ground (arith, eq_iff "Run" "")
          | inr nowhere ↦ absurd (Memᴰ.not-nil nowhere)
        ]
      ]
    ]

machine_well_formed : is_well_formed machine ≡ none
unfolding is_well_formed dangles check_transitions is_valid find_by_name
machine_well_formed = refl

run-is_well_formed_example :
    (out : Outcome) × (run true machine ≡ some out) × (is_well_formed out.ir ≡ none)
run-is_well_formed_example = run-is_well_formed true machine machine-IsEntered machine_well_formed
