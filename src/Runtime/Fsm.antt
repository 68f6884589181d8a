-- ===== src/Runtime/Fsm.antt =====
-- fsm.hpp: dispatching an event, with the deferral of events and their replay. `M` holds the members
-- of the class other than the deferred events: the current state, the registers, the history, the
-- timers and the invariants. What a dispatch of an event does to them is an `Instance`,
-- whose hooks leave the deferred events alone.
pub mod Dispatching
mod Examples
use fsmc.Common.{
  ◌+◌, ℕ, Bool, true, false, ◌||◌, String, List, [], ◌∷◌, Option, none, some, ◌==◌, if◌then◌else◌,
}
use fsmc.Runtime.StateType.{StateType, top, sub, state_name}
use fsmc.Runtime.TransitionExecutor.{
  DispatchStatus, success, deferred, guard_rejected, unhandled, TransitionKind, external, internal,
  TransitionTrace, TransitionInfo, DispatchResult, Row, Instance, execute_transition_from_ports,
}
use fsmc.Runtime.DeferredManager.{DeferredManager, defer_event, process_deferred_queue, leaving}

-- traits/observer_traits.hpp, by the event lists of the state types.
abbrev defers : ℕ → List ℕ → Bool
defers event [] = false
defers event (e ∷ es) = (event == e) || defers event es

unfoldable pub is_deferred_event : (StateType → List ℕ) → StateType → ℕ → Bool
is_deferred_event deferred_events (top t) event = defers event (deferred_events (top t))
is_deferred_event deferred_events (sub t parent) event =
    defers event (deferred_events (sub t parent)) || is_deferred_event deferred_events parent event

-- A machine class: its table, its capacity, the user's code, and how the class reads its events.
pub record Machine (E M : Type 0) : Type 0 where
  pub rows : List Row
  pub deferred_capacity : ℕ
  pub deferred_events : StateType → List ℕ
  pub event_type : E → ℕ
  pub event_name : E → String
  pub blank_event : E
  pub current_state : M → StateType
  pub hooks : E → Instance M
  pub on_unhandled_event : E → StateType → M → M
  pub call_do_activity : StateType → M → M

module _ {E M : Type 0} (fsm : Machine E M) where
  unfoldable pub dispatch_direct_ports : M → E → M × DispatchResult
  dispatch_direct_ports m event =
      execute_transition_from_ports (fsm.hooks event) (fsm.event_name event) (fsm.current_state m)
        (fsm.event_type event) fsm.rows m

  abbrev pub is_success : DispatchResult → Bool
  is_success result = elim result.status [ success ↦ true | _ ↦ false ]

  -- The function that the replay calls.
  unfoldable pub redispatch : M → E → M × Bool
  unfolding dispatch_direct_ports
  redispatch m event = let (m', result) = dispatch_direct_ports m event in (m', is_success result)

  trace_target : Option TransitionTrace → String
  trace_target none = ""
  trace_target (some trace) = trace.target

  trace_kind : Option TransitionTrace → TransitionKind
  trace_kind none = external
  trace_kind (some trace) = trace.kind

  unfoldable pub notify : DispatchStatus → String → TransitionKind → E → M → M
  notify status target kind event m =
      (fsm.hooks event).observer
        (record {
          source = state_name (fsm.current_state m);
          target = target;
          event = fsm.event_name event;
          status = status;
          kind = kind;
        })
        m

  -- A machine with its deferred events, and the result of the call.
  pub record Dispatched : Type 0 where
    pub machine : M
    pub deferred : DeferredManager E
    pub result : DispatchResult

  replayed : DispatchResult → Option (M × DeferredManager E) → Option Dispatched
  replayed result none = none
  replayed result (some (m, d)) = some record { machine = m; deferred = d; result = result }

  -- What dispatch does after the direct dispatch, by its status.
  unfoldable pub settle :
      E → M → DeferredManager E → DispatchStatus → Option TransitionTrace → Option Dispatched
  unfolding notify replayed process_deferred_queue is_deferred_event trace_target trace_kind
      defer_event
  settle event m d unhandled trace =
      let told = notify unhandled "" external event m in
      if is_deferred_event fsm.deferred_events (fsm.current_state m) (fsm.event_type event)
      then some record {
        machine = notify deferred "" external event m;
        deferred = defer_event fsm.deferred_capacity d event;
        result = record { status = deferred; trace = trace };
      }
      else some record {
        machine = fsm.on_unhandled_event event (fsm.current_state told) told;
        deferred = d;
        result = record { status = unhandled; trace = trace };
      }
  settle event m d guard_rejected trace = some record {
    machine = notify guard_rejected (trace_target trace) (trace_kind trace) event m;
    deferred = d;
    result = record { status = guard_rejected; trace = trace };
  }
  settle event m d success trace =
      replayed (record { status = success; trace = trace })
        (process_deferred_queue fsm.blank_event (leaving redispatch) (d.queue.size + 1) m d)
  settle event m d deferred trace =
      some
        record { machine = m; deferred = d; result = record { status = deferred; trace = trace } }

  unfoldable pub dispatch : M → DeferredManager E → E → Option Dispatched
  unfolding settle dispatch_direct_ports
  dispatch m d event =
      let (m', result) = dispatch_direct_ports m event in
      settle event m' d result.status result.trace

  -- step on given ports: an activity of the current state, then the anonymous event.
  after_step : E → M → DeferredManager E → DispatchResult → Option Dispatched
  unfolding replayed process_deferred_queue
  after_step anonymous m d result =
      if is_success result
      then replayed result
          (process_deferred_queue fsm.blank_event (leaving redispatch) (d.queue.size + 1) m d)
      else some record { machine = m; deferred = d; result = result }

  unfoldable pub step : E → M → DeferredManager E → Option Dispatched
  unfolding after_step dispatch_direct_ports
  step anonymous m d =
      let active = fsm.call_do_activity (fsm.current_state m) m in
      let (m', result) = dispatch_direct_ports active anonymous in after_step anonymous m' d result
