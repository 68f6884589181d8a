-- ===== src/Runtime/DeferredManager/Divergence.antt =====
-- detail/deferred_manager.hpp: a replay that does not end, since actions defer events while it is under way.
use fsmc.Common.{ℕ, zero, suc, ◌<◌, ◌≡◌, refl, Bool, true, false, none, ◌==◌, get_or, arith}
use fsmc.Runtime.StaticVector.{push_back, erase, empty}
use fsmc.Runtime.DeferredManager.{
  DeferredManager, defer_event, scan, replay, process_deferred_queue,
}

-- A machine that handles every event, by an action that defers the event again.
abbrev pub redeferring :
    {E M : Type 0} → ℕ → M → DeferredManager E → E → M × DeferredManager E × Bool
redeferring capacity m d e = (m, defer_event capacity d e, true)

module _ {E : Type 0} (default : E) (capacity : ℕ) where
  -- The manager after a pass: one event fewer, and one more.
  again : DeferredManager E → E → DeferredManager E
  again d e =
      let d' = defer_event capacity d e in record d' { queue = (erase default d'.queue 0).0 }

  again-size :
      (d : DeferredManager E) (e : E)
      → 0 < d.queue.size
      → d.queue.size < capacity
      → (again d e).queue.size ≡ d.queue.size
  unfolding again defer_event push_back erase
  again-size d e h k = ground arith

module _ {E M : Type 0} (default : E) (capacity : ℕ) where
  replay_diverges :
      (fuel : ℕ) (m : M) (d : DeferredManager E)
      → 0 < d.queue.size
      → d.queue.size < capacity
      → replay default (redeferring capacity) fuel m d true ≡ none
  unfolding replay empty scan again
  replay_diverges zero m d h k =
      let more : (d.queue.size == 0) ≡ false = ground arith in rw more refl
  replay_diverges (suc fuel) m d h k =
      let more : (d.queue.size == 0) ≡ false = ground arith in
      let other : (0 == d.queue.size) ≡ false = ground arith in
      let e : E = get_or d.queue.items 0 default in
      let same = again-size default capacity d e h k in
      rw (more, other)
        (replay_diverges fuel m (again default capacity d e) (omega arith) (omega arith))

  -- On a queue that is not empty and has room, the replay for such a machine runs out of every amount of fuel: it
  -- does not end.
  pub process_deferred_queue_diverges :
      (fuel : ℕ) (m : M) (d : DeferredManager E)
      → 0 < d.queue.size
      → d.queue.size < capacity
      → d.is_replaying ≡ false
      → process_deferred_queue default (redeferring capacity) fuel m d ≡ none
  unfolding process_deferred_queue empty
  process_deferred_queue_diverges fuel m d h k idle =
      let more : (d.queue.size == 0) ≡ false = ground arith in
      rw (more, idle, replay_diverges fuel m (record d { is_replaying = true }) h k) refl
