-- ===== src/Runtime/AsyncEventQueue/Examples.antt =====
-- A queue with tasks of both kinds, and an instance of the theorem about it.
use fsmc.Common.{◌≡◌, refl, true, String, List, [], ◌∷◌, arith}
use fsmc.Runtime.AsyncEventQueue.{AsyncEventQueue, drain_ready_batch, drain_timed}
use fsmc.Runtime.AsyncEventQueue.Draining.{Drained, drain_ready_batch-Drained}

abbrev queued : AsyncEventQueue String
queued = record {
  event_queue = "a" ∷ "b" ∷ [];
  timed_queue =
      record { deadline = 3; task = "soon" } ∷ record { deadline = 8; task = "later" } ∷ [];
  running = true;
}

abbrev batch_of : List String × AsyncEventQueue String → List String
batch_of r = r.0

drain_runs : batch_of (drain_ready_batch 5 queued) ≡ "soon" ∷ "a" ∷ "b" ∷ []
unfolding drain_ready_batch drain_timed
drain_runs = refl

drain_ready_batch-Drained_example : Drained 5 queued (drain_ready_batch 5 queued)
drain_ready_batch-Drained_example = drain_ready_batch-Drained 5 queued ((omega arith, tt), (tt, tt))
