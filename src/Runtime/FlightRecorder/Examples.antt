-- ===== src/Runtime/FlightRecorder/Examples.antt =====
-- A recorder of two places that wraps around, and an instance of the theorem about it.
use fsmc.Common.{ℕ, ◌≡◌, refl, true, List, [], ◌∷◌, arith}
use fsmc.Runtime.FlightRecorder.{TraceEntry, initial, record_entry, at}
use fsmc.Runtime.FlightRecorder.Recent.{keep_last, record_all, Shows, record_all-Shows}

abbrev at_tick : ℕ → TraceEntry
at_tick n = record {
  tick = n;
  source_state = "Off";
  event_name = "Toggle";
  target_state = "On";
  transition_taken = true;
}

abbrev recorded : List TraceEntry
recorded = at_tick 1 ∷ at_tick 2 ∷ at_tick 3 ∷ []

oldest_runs :
    at 2
      (record_entry 2
        (record_entry 2 (record_entry 2 (initial 2) (at_tick 1)) (at_tick 2))
        (at_tick 3))
      0
    ≡ at_tick 2
unfolding at record_entry initial
oldest_runs = refl

record_all-Shows_example : Shows 2 (record_all 2 recorded (initial 2)) (keep_last 2 recorded)
record_all-Shows_example = record_all-Shows 2 recorded (omega arith)
