-- ===== src/Runtime/DeferredManager/Examples.antt =====
-- A replay on a concrete machine, and an instance of the theorem about it.
use fsmc.Common.{
  ℕ, ◌+◌, ◌≡◌, refl, Bool, true, false, [], ◌∷◌, none, some, ◌==◌, if◌then◌else◌, arith,
}
use fsmc.Runtime.StaticVector.{erase}
use fsmc.Runtime.DeferredManager.{DeferredManager, scan, replay, process_deferred_queue, leaving}
use fsmc.Runtime.DeferredManager.Divergence.{redeferring, process_deferred_queue_diverges}
use fsmc.Runtime.DeferredManager.Quiescence.{Processed, process_deferred_queue-Processed}

-- The machine is in state `m` and handles the event of that number only.
abbrev counter : ℕ → ℕ → ℕ × Bool
counter m e = if m == e then (m + 1, true) else (m, false)

abbrev deferred : DeferredManager ℕ
deferred = record { queue = record { items = 9 ∷ 2 ∷ 1 ∷ 0 ∷ []; size = 3 }; is_replaying = false }

process_deferred_queue_runs :
    process_deferred_queue 0 (leaving counter) 4 1 deferred
    ≡ some (
      3,
      record { queue = record { items = 9 ∷ 0 ∷ 0 ∷ 0 ∷ []; size = 1 }; is_replaying = false },
    )
unfolding process_deferred_queue replay scan erase
process_deferred_queue_runs = refl

process_deferred_queue-Processed_example :
    Processed 0 counter 4 (process_deferred_queue 0 (leaving counter) 4 1 deferred) 1 deferred
process_deferred_queue-Processed_example =
    process_deferred_queue-Processed 0 counter 4 4 1 deferred (omega arith)
      (record { slots = refl; fits = omega arith }) refl

process_deferred_queue_diverges_example :
    process_deferred_queue {M = ℕ} 0 (redeferring 4) 1000 1 deferred ≡ none
process_deferred_queue_diverges_example =
    process_deferred_queue_diverges 0 4 1000 1 deferred (omega arith) (omega arith) refl
