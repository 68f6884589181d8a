-- ===== src/Runtime/Fsm/Examples.antt =====
-- A machine that defers an event while it is off, and an instance of the theorem about it.
use fsmc.Common.{ℕ, ◌≡◌, refl, true, false, [], ◌∷◌, none, some, ◌==◌, if◌then◌else◌, arith}
use fsmc.Runtime.StateType.{
  StateType, top, is_substate_of, is_substate_of_impl, traits, get_parent_name,
}
use fsmc.Runtime.StaticVector.{erase}
use fsmc.Runtime.TransitionExecutor.{
  Row, Instance, execute_transition_from_ports, execute, try_index, matches, perform,
  perform_external, call_hierarchical_on_exit, call_hierarchical_on_enter, record_ancestor_history,
}
use fsmc.Runtime.DeferredManager.{DeferredManager, process_deferred_queue, replay, scan}
use fsmc.Runtime.Fsm.{Machine, Dispatched, dispatch, dispatch_direct_ports, redispatch, settle}
use fsmc.Runtime.Fsm.Dispatching.{Served, dispatch-Served}

abbrev off : StateType
off = top (record {
  type_id = 0;
  name = "Off";
  type_name = "Off";
  parent = none;
  default_constructible = true;
})

abbrev on : StateType
on = top (record {
  type_id = 1;
  name = "On";
  type_name = "On";
  parent = none;
  default_constructible = true;
})

abbrev row : StateType → ℕ → StateType → Row
row source event target = record {
  source = source;
  event = event;
  target = target;
  is_internal = false;
  guard_type = "";
  action_type = "";
}

abbrev hooks : Instance StateType
hooks = record {
  record_history = λ parent substate m. m;
  on_exit = λ s m. m;
  on_enter = λ s m. m;
  guard = λ r m. true;
  action = λ r m. m;
  set_current_state = λ s m. s;
  observer = λ info m. m;
}

-- Event 7 switches on, and event 8 switches off again and is deferred while off.
abbrev switch : Machine ℕ StateType
switch = record {
  rows = row off 7 on ∷ row on 8 off ∷ [];
  deferred_capacity = 1;
  deferred_events = λ s. if (traits s).type_id == 0 then 8 ∷ [] else [];
  event_type = λ e. e;
  event_name = λ e. "";
  blank_event = 0;
  current_state = λ m. m;
  hooks = λ e. hooks;
  on_unhandled_event = λ e s m. m;
  call_do_activity = λ s m. m;
}

abbrev waiting : DeferredManager ℕ
waiting = record { queue = record { items = 8 ∷ []; size = 1 }; is_replaying = false }

abbrev machine_after : Dispatched switch → StateType
machine_after r = r.machine

-- Switched on, the machine takes the deferred event and is off again.
dispatch_runs :
    dispatch switch off waiting 7
    ≡ some record {
      machine = off;
      deferred = record { queue = record { items = 0 ∷ []; size = 0 }; is_replaying = false };
      result = (dispatch_direct_ports switch off 7).1;
    }
unfolding dispatch settle dispatch_direct_ports redispatch execute_transition_from_ports execute
    try_index matches perform perform_external call_hierarchical_on_exit call_hierarchical_on_enter
    record_ancestor_history is_substate_of is_substate_of_impl get_parent_name
    process_deferred_queue replay scan erase
dispatch_runs = refl

dispatch-Served_example :
    Served switch 8
      (dispatch_direct_ports switch off 8).0
      waiting
      (dispatch_direct_ports switch off 8).1.status
      (dispatch switch off waiting 8)
dispatch-Served_example =
    dispatch-Served switch off waiting 8
      (record { vector = record { slots = refl; fits = omega arith }; idle = refl })
