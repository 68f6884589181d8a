-- ===== src/Middleend/EventQueueBound.antt =====
-- src/middleend/analysis/event_queue_bound_pass.cpp: the capacity of a machine's event queue. The pass
-- reads the deferred events and the actions of states and transitions only, which the records here
-- hold; the texts that it writes into the attributes are those of the three numbers.
pub mod Capacity
pub mod Bounds
mod Examples
use fsmc.Common.{
  ℕ, zero, suc, ◌+◌, ◌*◌, ◌%◌, ◌^◌, max, Bool, true, false, String, List, [], ◌∷◌, Option, none,
  some, ltb, if◌then◌else◌, length,
}

-- The alternatives of an instruction's operation: SignalEmitOp, and the others.
pub data InstructionOp : Type 0 where
  signal_emit other_op : InstructionOp

abbrev pub ActionSignature : Type 0
ActionSignature = List InstructionOp

pub record QueueState : Type 0 where
  pub deferred_events : List String
  pub entry_actions : List ActionSignature
  pub exit_actions : List ActionSignature

pub record QueueEdge : Type 0 where
  pub transition_action : Option ActionSignature
  pub condition_action : Option ActionSignature

pub record QueueIr : Type 0 where
  pub states : List QueueState
  pub transitions : List QueueEdge

pub record QueueBounds : Type 0 where
  pub static_event_queue_capacity : ℕ
  pub max_deferred_events_bound : ℕ
  pub max_burst_emits_bound : ℕ

unfoldable pub count_emitted_signals : ActionSignature → ℕ
count_emitted_signals [] = 0
count_emitted_signals (signal_emit ∷ ops) = count_emitted_signals ops + 1
count_emitted_signals (other_op ∷ ops) = count_emitted_signals ops

unfoldable pub max_deferred : ℕ → List QueueState → ℕ
max_deferred so_far [] = so_far
max_deferred so_far (state ∷ states) =
    if ltb so_far (length state.deferred_events)
    then max_deferred (length state.deferred_events) states
    else max_deferred so_far states

unfoldable pub max_emits : ℕ → List ActionSignature → ℕ
unfolding count_emitted_signals
max_emits so_far [] = so_far
max_emits so_far (act ∷ acts) = max_emits (max so_far (count_emitted_signals act)) acts

unfoldable pub state_emits : ℕ → List QueueState → ℕ
unfolding max_emits
state_emits so_far [] = so_far
state_emits so_far (state ∷ states) =
    state_emits (max_emits (max_emits so_far state.entry_actions) state.exit_actions) states

unfoldable pub optional_emits : ℕ → Option ActionSignature → ℕ
unfolding count_emitted_signals
optional_emits so_far none = so_far
optional_emits so_far (some act) = max so_far (count_emitted_signals act)

unfoldable pub edge_emits : ℕ → List QueueEdge → ℕ
unfolding optional_emits
edge_emits so_far [] = so_far
edge_emits so_far (edge ∷ edges) =
    edge_emits (optional_emits (optional_emits so_far edge.transition_action) edge.condition_action)
      edges

-- `while (power_of_two_capacity < bound) power_of_two_capacity <<= 1;`, with fuel.
unfoldable pub grow : ℕ → ℕ → ℕ → Option ℕ
grow zero capacity bound = if ltb capacity bound then none else some capacity
grow (suc fuel) capacity bound =
    let rest = grow fuel (capacity * 2 % 2 ^ 64) bound in
    if ltb capacity bound then rest else some capacity

bounds_of : ℕ → ℕ → Option ℕ → Option QueueBounds
bounds_of deferred emits none = none
bounds_of deferred emits (some capacity) = some record {
  static_event_queue_capacity = capacity;
  max_deferred_events_bound = deferred;
  max_burst_emits_bound = emits;
}

-- From 2 on, 62 doublings reach 2 ^ 63.
unfoldable pub run : QueueIr → Option QueueBounds
unfolding max_deferred state_emits edge_emits grow bounds_of
run ir =
    let deferred = max_deferred 0 ir.states in
    let emits = edge_emits (state_emits 0 ir.states) ir.transitions in
    bounds_of deferred emits (grow 62 2 (deferred + emits + 2))
