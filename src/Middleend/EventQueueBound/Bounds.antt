-- ===== src/Middleend/EventQueueBound/Bounds.antt =====
-- src/middleend/analysis/event_queue_bound_pass.cpp: the numbers bound every state and every action.
use mathlib.Core.Path.{subst}
use fsmc.Common.{
  ℕ, ◌+◌, ◌*◌, ◌^◌, ◌≤◌, ◌<◌, ◌≡◌, refl, sym, inl, inr, true, false, List, [], ◌∷◌, Option, none,
  some, ltb, length, max, Bool-cases, arith,
}
use fsmc.Middleend.EventQueueBound.{
  ActionSignature, QueueState, QueueEdge, QueueIr, QueueBounds, count_emitted_signals, max_deferred,
  max_emits, state_emits, optional_emits, edge_emits, bounds_of, run,
}
use fsmc.Middleend.EventQueueBound.Capacity.{grow-Grown}

-- Every state defers at most `d` events.
abbrev pub Deferring : ℕ → List QueueState → Type 0
Deferring d [] = Unit
Deferring d (state ∷ states) = (length state.deferred_events ≤ d) × Deferring d states

-- Every action emits at most `n` signals.
abbrev pub Emitting : ℕ → List ActionSignature → Type 0
Emitting n [] = Unit
Emitting n (act ∷ acts) = (count_emitted_signals act ≤ n) × Emitting n acts

abbrev pub EmittingStates : ℕ → List QueueState → Type 0
EmittingStates n [] = Unit
EmittingStates n (state ∷ states) =
    Emitting n state.entry_actions × Emitting n state.exit_actions × EmittingStates n states

abbrev pub EmittingOption : ℕ → Option ActionSignature → Type 0
EmittingOption n none = Unit
EmittingOption n (some act) = count_emitted_signals act ≤ n

abbrev pub EmittingEdges : ℕ → List QueueEdge → Type 0
EmittingEdges n [] = Unit
EmittingEdges n (edge ∷ edges) =
    EmittingOption n edge.transition_action
    × EmittingOption n edge.condition_action
    × EmittingEdges n edges

max_deferred_more :
    (so_far : ℕ) (state : QueueState) (states : List QueueState)
    → ltb so_far (length state.deferred_events) ≡ true
    → max_deferred so_far (state ∷ states) ≡ max_deferred (length state.deferred_events) states
unfolding max_deferred
max_deferred_more so_far state states h = rw h refl

max_deferred_kept :
    (so_far : ℕ) (state : QueueState) (states : List QueueState)
    → ltb so_far (length state.deferred_events) ≡ false
    → max_deferred so_far (state ∷ states) ≡ max_deferred so_far states
unfolding max_deferred
max_deferred_kept so_far state states h = rw h refl

max_deferred_nil : (so_far : ℕ) → max_deferred so_far [] ≡ so_far
unfolding max_deferred
max_deferred_nil so_far = refl

max_deferred-Deferring :
    (so_far : ℕ) (states : List QueueState)
    → (so_far ≤ max_deferred so_far states) × Deferring (max_deferred so_far states) states
max_deferred-Deferring so_far [] = let e = max_deferred_nil so_far in (omega arith, tt)
max_deferred-Deferring so_far (state ∷ states) =
    elim (Bool-cases (ltb so_far (length state.deferred_events))) [
      | inl more ↦
          let (le, rest) = max_deferred-Deferring (length state.deferred_events) states in
          let lt : so_far < length state.deferred_events = ground arith in
          subst (λ r. (so_far ≤ r) × Deferring r (state ∷ states))
            (sym (max_deferred_more so_far state states more)) (omega arith, (le, rest))
      | inr enough ↦
          let (le, rest) = max_deferred-Deferring so_far states in
          let small : length state.deferred_events ≤ so_far = ground arith in
          subst (λ r. (so_far ≤ r) × Deferring r (state ∷ states))
            (sym (max_deferred_kept so_far state states enough)) (le, (omega arith, rest))
    ]

max_emits-Emitting :
    (so_far : ℕ) (acts : List ActionSignature)
    → (so_far ≤ max_emits so_far acts) × Emitting (max_emits so_far acts) acts
unfolding max_emits
max_emits-Emitting so_far [] = (omega arith, tt)
max_emits-Emitting so_far (act ∷ acts) =
    let (le, rest) = max_emits-Emitting (max so_far (count_emitted_signals act)) acts in
    (omega arith, (omega arith, rest))

Emitting-more : (n m : ℕ) (acts : List ActionSignature) → n ≤ m → Emitting n acts → Emitting m acts
Emitting-more n m [] h e = tt
Emitting-more n m (act ∷ acts) h e = (omega (arith, e.0), Emitting-more n m acts h e.1)

EmittingStates-more :
    (n m : ℕ) (states : List QueueState) → n ≤ m → EmittingStates n states → EmittingStates m states
EmittingStates-more n m [] h e = tt
EmittingStates-more n m (state ∷ states) h (a, b, rest) = (
  Emitting-more n m state.entry_actions h a,
  Emitting-more n m state.exit_actions h b,
  EmittingStates-more n m states h rest,
)

state_emits-EmittingStates :
    (so_far : ℕ) (states : List QueueState)
    → (so_far ≤ state_emits so_far states) × EmittingStates (state_emits so_far states) states
unfolding state_emits
state_emits-EmittingStates so_far [] = (omega arith, tt)
state_emits-EmittingStates so_far (state ∷ states) =
    let n = max_emits so_far state.entry_actions in
    let m = max_emits n state.exit_actions in
    let (le, entry) = max_emits-Emitting so_far state.entry_actions in
    let (le', exit) = max_emits-Emitting n state.exit_actions in
    let (le'', rest) = state_emits-EmittingStates m states in
    (
      omega arith,
      (
        Emitting-more n _ state.entry_actions (omega arith) entry,
        Emitting-more m _ state.exit_actions le'' exit,
        rest,
      ),
    )

optional_emits-EmittingOption :
    (so_far : ℕ) (o : Option ActionSignature)
    → (so_far ≤ optional_emits so_far o) × EmittingOption (optional_emits so_far o) o
unfolding optional_emits
optional_emits-EmittingOption so_far none = (omega arith, tt)
optional_emits-EmittingOption so_far (some act) = (omega arith, omega arith)

EmittingOption-more :
    (n m : ℕ) (o : Option ActionSignature) → n ≤ m → EmittingOption n o → EmittingOption m o
EmittingOption-more n m none h e = tt
EmittingOption-more n m (some act) h e = omega arith

edge_emits-EmittingEdges :
    (so_far : ℕ) (edges : List QueueEdge)
    → (so_far ≤ edge_emits so_far edges) × EmittingEdges (edge_emits so_far edges) edges
unfolding edge_emits
edge_emits-EmittingEdges so_far [] = (omega arith, tt)
edge_emits-EmittingEdges so_far (edge ∷ edges) =
    let n = optional_emits so_far edge.transition_action in
    let m = optional_emits n edge.condition_action in
    let (le, first) = optional_emits-EmittingOption so_far edge.transition_action in
    let (le', second) = optional_emits-EmittingOption n edge.condition_action in
    let (le'', rest) = edge_emits-EmittingEdges m edges in
    (
      omega arith,
      (
        EmittingOption-more n _ edge.transition_action (omega arith) first,
        EmittingOption-more m _ edge.condition_action le'' second,
        rest,
      ),
    )

-- The numbers are the least ones that bound what they are about.

max_deferred_least :
    (so_far d : ℕ) (states : List QueueState)
    → so_far ≤ d
    → Deferring d states
    → max_deferred so_far states ≤ d
max_deferred_least so_far d [] h k = rw (max_deferred_nil so_far) h
max_deferred_least so_far d (state ∷ states) h k =
    elim (Bool-cases (ltb so_far (length state.deferred_events))) [
      | inl more ↦
          rw (max_deferred_more so_far state states more)
            (max_deferred_least (length state.deferred_events) d states k.0 k.1)
      | inr enough ↦
          rw (max_deferred_kept so_far state states enough)
            (max_deferred_least so_far d states h k.1)
    ]

max_emits_least :
    (so_far n : ℕ) (acts : List ActionSignature)
    → so_far ≤ n
    → Emitting n acts
    → max_emits so_far acts ≤ n
unfolding max_emits
max_emits_least so_far n [] h k = h
max_emits_least so_far n (act ∷ acts) h k =
    max_emits_least (max so_far (count_emitted_signals act)) n acts (omega (arith, k.0)) k.1

state_emits_least :
    (so_far n : ℕ) (states : List QueueState)
    → so_far ≤ n
    → EmittingStates n states
    → state_emits so_far states ≤ n
unfolding state_emits
state_emits_least so_far n [] h k = h
state_emits_least so_far n (state ∷ states) h (entry, exit, rest) =
    let entered = max_emits_least so_far n state.entry_actions h entry in
    let exited =
      max_emits_least (max_emits so_far state.entry_actions) n state.exit_actions entered exit in
    state_emits_least (max_emits (max_emits so_far state.entry_actions) state.exit_actions) n states
      exited rest

optional_emits_least :
    (so_far n : ℕ) (o : Option ActionSignature)
    → so_far ≤ n
    → EmittingOption n o
    → optional_emits so_far o ≤ n
unfolding optional_emits
optional_emits_least so_far n none h k = h
optional_emits_least so_far n (some act) h k = omega arith

edge_emits_least :
    (so_far n : ℕ) (edges : List QueueEdge)
    → so_far ≤ n
    → EmittingEdges n edges
    → edge_emits so_far edges ≤ n
unfolding edge_emits
edge_emits_least so_far n [] h k = h
edge_emits_least so_far n (edge ∷ edges) h (first, second, rest) =
    let fired = optional_emits_least so_far n edge.transition_action h first in
    edge_emits_least
      (optional_emits (optional_emits so_far edge.transition_action) edge.condition_action) n edges
      (optional_emits_least (optional_emits so_far edge.transition_action) n edge.condition_action
        fired second)
      rest

-- What the pass promises of the numbers that it writes.
pub record Bounded (ir : QueueIr) (result : Option QueueBounds) : Type 0 where
  pub bounds : QueueBounds
  pub returns : result ≡ some bounds
  pub deferring : Deferring bounds.max_deferred_events_bound ir.states
  pub emitting_states : EmittingStates bounds.max_burst_emits_bound ir.states
  pub emitting_edges : EmittingEdges bounds.max_burst_emits_bound ir.transitions
  pub least_deferring : (d : ℕ) → Deferring d ir.states → bounds.max_deferred_events_bound ≤ d
  pub least_emitting :
      (n : ℕ)
      → EmittingStates n ir.states
      → EmittingEdges n ir.transitions
      → bounds.max_burst_emits_bound ≤ n
  pub exponent : ℕ
  pub power : bounds.static_event_queue_capacity ≡ 2 ^ exponent
  pub narrow : exponent ≤ 63
  pub enough :
      bounds.max_deferred_events_bound + bounds.max_burst_emits_bound + 2
      ≤ bounds.static_event_queue_capacity
  pub tight :
      bounds.static_event_queue_capacity
      < 2 * (bounds.max_deferred_events_bound + bounds.max_burst_emits_bound + 2)

-- Where the most events that a state defers, the most signals that an action emits, and 2 come to at
-- most 2 ^ 63, the pass returns. The two numbers that it writes are the least such that no single state
-- defers more events and no single action emits more signals; and the capacity is a power of two, at
-- most 2 ^ 63, that holds both and two more, and less than twice that.
pub run-Bounded :
    (ir : QueueIr)
    → max_deferred 0 ir.states + edge_emits (state_emits 0 ir.states) ir.transitions + 2 ≤ 2 ^ 63
    → Bounded ir (run ir)
unfolding run bounds_of
run-Bounded ir h =
    let d = max_deferred 0 ir.states in
    let n = edge_emits (state_emits 0 ir.states) ir.transitions in
    let r = grow-Grown 62 1 (d + n + 2) refl h in
    let (le, edges) = edge_emits-EmittingEdges (state_emits 0 ir.states) ir.transitions in
    rw r.returns record {
      bounds = record {
        static_event_queue_capacity = 2 ^ r.exponent;
        max_deferred_events_bound = d;
        max_burst_emits_bound = n;
      };
      returns = refl;
      deferring = (max_deferred-Deferring 0 ir.states).1;
      emitting_states =
          EmittingStates-more _ _ ir.states le (state_emits-EmittingStates 0 ir.states).1;
      emitting_edges = edges;
      least_deferring = λ m k. max_deferred_least 0 m ir.states (omega arith) k;
      least_emitting = λ m k k'.
          edge_emits_least (state_emits 0 ir.states) m ir.transitions
            (state_emits_least 0 m ir.states (omega arith) k) k';
      exponent = r.exponent;
      power = refl;
      narrow = r.narrow;
      enough = r.enough;
      tight = elim r.tight [ inl start ↦ omega arith | inr less ↦ less ];
    }
