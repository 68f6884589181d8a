-- ===== src/Runtime/DeferredManager.antt =====
-- detail/deferred_manager.hpp, for machines with deferred events: the queue of deferred events and
-- its replay. The machine that a replay dispatches into is a state `M` with a function that gives the
-- new state, the manager, which the actions can reach by defer_event, and whether the event was handled.
pub mod Replay
pub mod Quiescence
pub mod Divergence
mod Examples
use fsmc.Common.{
  ℕ, zero, suc, ◌+◌, Bool, true, false, ◌&&◌, ◌||◌, not, List, Option, none, some, if◌then◌else◌,
  get_or, ◌==◌,
}
use fsmc.Runtime.StaticVector
use fsmc.Runtime.StaticVector.{StaticVector, push_back, erase, empty}

pub record DeferredManager {ℓ} (E : Type ℓ) : Type ℓ where
  pub queue : StaticVector E
  pub is_replaying : Bool

module _ {ℓ} {E : Type ℓ} where
  -- The answer of push_back is dropped.
  unfoldable pub defer_event : ℕ → DeferredManager E → E → DeferredManager E
  defer_event capacity d event = record d { queue = (push_back capacity d.queue event).0 }

  unfoldable pub deferred_count : DeferredManager E → ℕ
  deferred_count d = d.queue.size

  unfoldable pub clear_deferred_events : DeferredManager E → DeferredManager E
  clear_deferred_events d = record d { queue = StaticVector.clear d.queue }

module _ {E M : Type 0} (default : E)
    (dispatch : M → DeferredManager E → E → M × DeferredManager E × Bool) where
  -- What one pass over the queue leaves.
  pub record Pass : Type 0 where
    pub machine : M
    pub deferred : DeferredManager E
    pub handled : Bool

  -- The `for` loop from slot `i` on, with fuel: it ends at the end of the queue, which it reads anew in
  -- each round, or at the first event that is handled, which it takes off the queue.
  unfoldable pub scan : ℕ → ℕ → M → DeferredManager E → Option Pass
  scan zero i m d =
      if i == d.queue.size
      then some (record { machine = m; deferred = d; handled = false })
      else none
  scan (suc fuel) i m d =
      let (m', d', handled) = dispatch m d (get_or d.queue.items i default) in
      let rest = scan fuel (suc i) m' d' in
      if i == d.queue.size
      then some (record { machine = m; deferred = d; handled = false })
      else if handled
      then some (record {
        machine = m';
        deferred = record d' { queue = (erase default d'.queue i).0 };
        handled = true;
      })
      else rest

  -- `while (any_handled && !deferred_queue_.empty())`, with fuel.
  unfoldable pub replay : ℕ → M → DeferredManager E → Bool → Option (M × DeferredManager E)
  unfolding empty
  replay zero m d any_handled = if any_handled && not (empty d.queue) then none else some (m, d)
  replay (suc fuel) m d any_handled =
      if any_handled && not (empty d.queue)
      then elim (scan (suc fuel) 0 m d) [
        | none ↦ none
        | some pass ↦ replay fuel pass.machine pass.deferred pass.handled
      ]
      else some (m, d)

  after_replay : Option (M × DeferredManager E) → Option (M × DeferredManager E)
  after_replay none = none
  after_replay (some (m, d)) = some (m, record d { is_replaying = false })

  -- `none` means that the fuel of a loop ran out.
  unfoldable pub process_deferred_queue : ℕ → M → DeferredManager E → Option (M × DeferredManager E)
  unfolding after_replay
  process_deferred_queue fuel m d =
      if empty d.queue || d.is_replaying
      then some (m, d)
      else after_replay (replay fuel m (record d { is_replaying = true }) true)

-- A machine whose actions leave the deferred events alone.
abbrev pub leaving :
    {E M : Type 0} → (M → E → M × Bool) → M → DeferredManager E → E → M × DeferredManager E × Bool
leaving dispatch m d e = ((dispatch m e).0, d, (dispatch m e).1)
