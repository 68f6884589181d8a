-- ===== src/Middleend/EventQueueBound/Examples.antt =====
-- The bounds of a small machine, and an instance of the theorem about them.
use fsmc.Common.{◌+◌, ◌^◌, ◌≤◌, ◌≡◌, refl, [], ◌∷◌, none, some, arith}
use fsmc.Middleend.EventQueueBound.{
  signal_emit, other_op, QueueIr, count_emitted_signals, max_deferred, max_emits, state_emits,
  optional_emits, edge_emits, grow, run,
}
use fsmc.Middleend.EventQueueBound.Bounds.{Bounded, run-Bounded}

abbrev machine : QueueIr
machine = record {
  states =
      record {
        deferred_events = "Telemetry" ∷ "Ping" ∷ [];
        entry_actions = (signal_emit ∷ other_op ∷ signal_emit ∷ []) ∷ [];
        exit_actions = [];
      }
      ∷ [];
  transitions =
      record { transition_action = some (signal_emit ∷ []); condition_action = none } ∷ [];
}

run_runs :
    run machine
    ≡ some record {
      static_event_queue_capacity = 8;
      max_deferred_events_bound = 2;
      max_burst_emits_bound = 2;
    }
unfolding run max_deferred state_emits max_emits count_emitted_signals edge_emits optional_emits
    grow
run_runs = refl

small :
    max_deferred 0 machine.states
      + edge_emits (state_emits 0 machine.states) machine.transitions
      + 2
    ≤ 2 ^ 63
unfolding max_deferred state_emits max_emits count_emitted_signals edge_emits optional_emits
small = omega arith

run-Bounded_example : Bounded machine (run machine)
run-Bounded_example = run-Bounded machine small

-- Two regions, each with deferred events of its own, and a step that runs three actions.
abbrev regions : QueueIr
regions = record {
  states =
      record {
        deferred_events = "Ping" ∷ [];
        entry_actions = [];
        exit_actions = (signal_emit ∷ []) ∷ [];
      }
      ∷ record {
        deferred_events = "Telemetry" ∷ [];
        entry_actions = (signal_emit ∷ []) ∷ [];
        exit_actions = [];
      }
      ∷ [];
  transitions =
      record { transition_action = some (signal_emit ∷ []); condition_action = none } ∷ [];
}

-- Both states together defer two events, and the exit, the transition and the entry emit three signals.
regions_bounds :
    run regions
    ≡ some record {
      static_event_queue_capacity = 4;
      max_deferred_events_bound = 1;
      max_burst_emits_bound = 1;
    }
unfolding run max_deferred state_emits max_emits count_emitted_signals edge_emits optional_emits
    grow
regions_bounds = refl
