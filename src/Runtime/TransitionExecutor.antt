-- ===== src/Runtime/TransitionExecutor.antt =====
-- detail/transition_executor.hpp: how one event is executed from one state, on the rows of the table.
-- The machine, its domain and the user's hooks are the template's parameters, and an `Instance` here:
-- its operations are those of one dispatch, so that the event and the input ports are fixed. A state's
-- own data belongs to the machine `F`.
pub mod Selection
pub mod Steps
pub mod Lifecycle
mod Examples
use fsmc.Common.{
  ℕ, Bool, true, false, ◌&&◌, ◌||◌, not, String, str_eq, List, [], ◌∷◌, Option, none, some, ◌==◌,
  if◌then◌else◌,
}
use fsmc.Runtime.StateType.{
  StateType, top, sub, traits, state_name, is_same, is_substate_of, get_parent_name,
}

-- traits/dispatch_result.hpp.
pub data DispatchStatus : Type 0 where
  success deferred guard_rejected unhandled : DispatchStatus

pub data TransitionKind : Type 0 where
  external internal : TransitionKind

pub record TransitionTrace : Type 0 where
  pub source : String
  pub target : String
  pub event : String
  pub guard : String
  pub action : String
  pub kind : TransitionKind

pub record DispatchResult : Type 0 where
  pub status : DispatchStatus
  pub trace : Option TransitionTrace

pub record TransitionInfo : Type 0 where
  pub source : String
  pub target : String
  pub event : String
  pub status : DispatchStatus
  pub kind : TransitionKind

-- A row of the table; an event is the number of its type.
pub record Row : Type 0 where
  pub source : StateType
  pub event : ℕ
  pub target : StateType
  pub is_internal : Bool
  pub guard_type : String
  pub action_type : String

-- `guard` reads the machine; the services that the source passes to it are not changed by it.
pub record Instance (F : Type 0) : Type 0 where
  pub record_history : String → String → F → F
  pub on_exit : StateType → F → F
  pub on_enter : StateType → F → F
  pub guard : Row → F → Bool
  pub action : Row → F → F
  pub set_current_state : StateType → F → F
  pub observer : TransitionInfo → F → F

module _ {F : Type 0} (fsm : Instance F) where
  -- The recursion goes on with the parent of `state`.
  unfoldable pub call_hierarchical_on_exit : StateType → StateType → F → F
  call_hierarchical_on_exit target (top t) f = fsm.on_exit (top t) f
  call_hierarchical_on_exit target (sub t parent) f =
      let left = fsm.on_exit (sub t parent) f in
      let rest = call_hierarchical_on_exit target parent left in
      if is_substate_of target parent
      then left
      else if (traits parent).default_constructible
      then rest
      else left

  enter_ancestor : StateType → StateType → F → F
  enter_ancestor target ancestor f =
      if is_same ancestor target
      then f
      else if (traits ancestor).default_constructible
      then fsm.on_enter ancestor f
      else f

  unfoldable pub call_ancestor_on_enter_helper : StateType → StateType → StateType → F → F
  unfolding enter_ancestor
  call_ancestor_on_enter_helper current target (top t) f = enter_ancestor target (top t) f
  call_ancestor_on_enter_helper current target (sub t parent) f =
      let above = call_ancestor_on_enter_helper current target parent f in
      enter_ancestor target (sub t parent) (if is_substate_of current parent then f else above)

  unfoldable pub call_hierarchical_on_enter : StateType → StateType → F → F
  unfolding call_ancestor_on_enter_helper
  call_hierarchical_on_enter current (top t) f = fsm.on_enter (top t) f
  call_hierarchical_on_enter current (sub t parent) f =
      let above = call_ancestor_on_enter_helper current (sub t parent) parent f in
      fsm.on_enter (sub t parent) (if is_substate_of current parent then f else above)

  unfoldable pub call_initial_ancestor_on_enter : StateType → F → F
  call_initial_ancestor_on_enter (top t) f =
      if t.default_constructible then fsm.on_enter (top t) f else f
  call_initial_ancestor_on_enter (sub t parent) f =
      let above = call_initial_ancestor_on_enter parent f in
      if t.default_constructible then fsm.on_enter (sub t parent) above else above

  unfoldable pub call_initial_hierarchical_on_enter : StateType → F → F
  unfolding call_initial_ancestor_on_enter
  call_initial_hierarchical_on_enter (top t) f = fsm.on_enter (top t) f
  call_initial_hierarchical_on_enter (sub t parent) f =
      fsm.on_enter (sub t parent) (call_initial_ancestor_on_enter parent f)

  -- traits/reflection.hpp.
  record_parent_name : Option String → String → F → F
  record_parent_name none state f = f
  record_parent_name (some parent) state f =
      if str_eq parent "" then f else fsm.record_history parent state f

  unfoldable pub record_ancestor_history : StateType → String → F → F
  unfolding record_parent_name
  record_ancestor_history (top t) state f = record_parent_name t.parent state f
  record_ancestor_history (sub t parent) state f =
      record_ancestor_history parent (state_name parent)
        (fsm.record_history (state_name parent) state f)

  has_parent_type : StateType → Bool
  has_parent_type (top t) = false
  has_parent_type (sub t parent) = true

  -- try_index tells whether a row was executed; the captured traces are its other results.
  pub data Tried : Type 0 where
    skipped : Tried
    rejected : TransitionTrace → Tried
    executed : TransitionTrace → F → Tried

  pub trace_of : String → StateType → Row → TransitionTrace
  trace_of evt_name src row = record {
    source = state_name src;
    target = if row.is_internal then state_name src else state_name row.target;
    event = evt_name;
    guard = row.guard_type;
    action = row.action_type;
    kind = if row.is_internal then internal else external;
  }

  pub info_of : String → StateType → Row → TransitionInfo
  info_of evt_name src row = record {
    source = state_name src;
    target = if row.is_internal then state_name src else state_name row.target;
    event = evt_name;
    status = success;
    kind = if row.is_internal then internal else external;
  }

  unfoldable pub matches : StateType → ℕ → Row → Bool
  matches src event row =
      (is_same src row.source || is_substate_of src row.source) && (event == row.event)

  -- The 4-Phase Transition Lifecycle.
  unfoldable pub perform_external : String → StateType → Row → F → F
  unfolding call_hierarchical_on_exit call_hierarchical_on_enter record_ancestor_history
      has_parent_type info_of
  perform_external evt_name src row f =
      let recorded =
        if not (str_eq (get_parent_name src) "") || has_parent_type src
        then record_ancestor_history src (state_name src) f
        else f in
      let exited = call_hierarchical_on_exit row.target src recorded in
      let acted = fsm.action row exited in
      let entered =
        call_hierarchical_on_enter src row.target (fsm.set_current_state row.target acted) in
      fsm.observer (info_of evt_name src row) entered

  unfoldable pub perform : String → StateType → Row → F → F
  unfolding perform_external info_of
  perform evt_name src row f =
      if row.is_internal
      then fsm.observer (info_of evt_name src row) (fsm.action row f)
      else perform_external evt_name src row f

  unfoldable pub try_index : String → StateType → ℕ → Row → F → Tried
  unfolding matches perform trace_of
  try_index evt_name src event row f =
      if matches src event row
      then if fsm.guard row f
        then executed (trace_of evt_name src row) (perform evt_name src row f)
        else rejected (trace_of evt_name src row)
      else skipped

  -- What the function returns where no row was executed.
  unfoldable pub conclude : String → StateType → Option TransitionTrace → DispatchResult
  conclude evt_name src (some last_rejected) = record {
    status = guard_rejected;
    trace = some last_rejected;
  }
  conclude evt_name src none = record {
    status = unhandled;
    trace = some record {
      source = state_name src;
      target = "";
      event = evt_name;
      guard = "";
      action = "";
      kind = external;
    };
  }

  continue_with :
      (Option TransitionTrace → F × DispatchResult)
      → Option TransitionTrace
      → Tried
      → F × DispatchResult
  continue_with rest last skipped = rest last
  continue_with rest last (rejected trace) = rest (some trace)
  continue_with rest last (executed trace f) = (f, record { status = success; trace = some trace })

  -- The fold over the rows; the trace of the last rejected row stands for both captured variables.
  unfoldable pub execute :
      String → StateType → ℕ → List Row → Option TransitionTrace → F → F × DispatchResult
  unfolding continue_with try_index conclude
  execute evt_name src event [] last f = (f, conclude evt_name src last)
  execute evt_name src event (row ∷ rows) last f =
      continue_with (λ rejections. execute evt_name src event rows rejections f) last
        (try_index evt_name src event row f)

  unfoldable pub execute_transition_from_ports :
      String → StateType → ℕ → List Row → F → F × DispatchResult
  unfolding execute
  execute_transition_from_ports evt_name src event rows f = execute evt_name src event rows none f
