-- ===== src/Runtime/TransitionExecutor/Selection.antt =====
-- detail/transition_executor.hpp: which row an event takes.
use fsmc.Common.{
  ℕ, ◌≡◌, refl, inl, inr, ◌&&◌, String, List, [], ◌∷◌, Option, none, some, if◌then◌else◌,
  Bool-cases,
}
use fsmc.Runtime.StateType.{StateType}
use fsmc.Runtime.TransitionExecutor.{
  TransitionTrace, Row, Instance, DispatchResult, success, trace_of, matches, perform, try_index,
  conclude, execute, execute_transition_from_ports,
}

module _ {F : Type 0} (fsm : Instance F) (evt_name : String) (src : StateType) (event : ℕ) where
  -- The first row, in the table's order, that matches and whose guard holds.
  pub first_enabled : List Row → F → Option Row
  first_enabled [] f = none
  first_enabled (row ∷ rows) f =
      if matches fsm src event row && fsm.guard row f then some row else first_enabled rows f

  -- The last row that matches.
  pub last_matching : List Row → Option TransitionTrace → Option TransitionTrace
  last_matching [] last = last
  last_matching (row ∷ rows) last =
      last_matching rows
        (if matches fsm src event row then some (trace_of fsm evt_name src row) else last)

  -- The effect of that row alone, or else an unchanged machine.
  pub chosen : Option Row → Option TransitionTrace → F → F × DispatchResult
  chosen (some row) last f = (
    perform fsm evt_name src row f,
    record { status = success; trace = some (trace_of fsm evt_name src row) },
  )
  chosen none last f = (f, conclude fsm evt_name src last)

  execute-chosen :
      (rows : List Row) (last : Option TransitionTrace) (f : F)
      → execute fsm evt_name src event rows last f
        ≡ chosen (first_enabled rows f) (last_matching rows last) f
  unfolding execute try_index first_enabled last_matching chosen
  execute-chosen [] last f = refl
  execute-chosen (row ∷ rows) last f = elim (Bool-cases (matches fsm src event row)) [
    | inl m ↦ elim (Bool-cases (fsm.guard row f)) [
      | inl passed ↦ rw (m, passed)
      | inr failed ↦ rw (m, failed) (execute-chosen rows (some (trace_of fsm evt_name src row)) f)
    ]
    | inr other ↦ rw other (execute-chosen rows last f)
  ]

  -- An event takes the first row of the table that matches and whose guard holds, and that row only;
  -- where there is none the machine is unchanged, and the result is guard_rejected with the trace of
  -- the last row that matches, or unhandled where no row matches.
  pub execute-first_enabled :
      (rows : List Row) (f : F)
      → execute_transition_from_ports fsm evt_name src event rows f
        ≡ chosen (first_enabled rows f) (last_matching rows none) f
  unfolding execute_transition_from_ports
  execute-first_enabled rows f = execute-chosen rows none f
