-- ===== src/Runtime/AsyncEventQueue.antt =====
-- async_event_queue.hpp: tasks in their order, and tasks with a deadline. The methods hold the mutex, so
-- each is one step. The clock's reading is an argument. The priority queue is a list in the order of
-- deadlines; the standard leaves the order of equal deadlines open, and here the earlier push is first.
pub mod Draining
mod Examples
use fsmc.Common.{
  ℕ, zero, suc, ◌+◌, Bool, true, false, ◌&&◌, List, [], ◌∷◌, ◌++◌, Option, none, some, leb, ltb,
  if◌then◌else◌, length,
}

pub record TimedEvent {ℓ} (H : Type ℓ) : Type ℓ where
  pub deadline : ℕ
  pub task : H

pub record AsyncEventQueue {ℓ} (H : Type ℓ) : Type ℓ where
  pub event_queue : List H
  pub timed_queue : List (TimedEvent H)
  pub running : Bool

-- What a round of pop_wait comes to: a task, the end of the queue, or a wait, with a deadline if a
-- timed task is queued.
pub data Round {ℓ} (H : Type ℓ) : Type ℓ where
  takes : H → AsyncEventQueue H → Round H
  ends : Round H
  waits : Round H
  waits_until : ℕ → Round H

is_nil {ℓ} : {B : Type ℓ} → List B → Bool
is_nil [] = true
is_nil (x ∷ xs) = false

module _ {ℓ} {H : Type ℓ} where
  unfoldable pub initial : AsyncEventQueue H
  initial = record { event_queue = []; timed_queue = []; running = true }

  unfoldable pub push : AsyncEventQueue H → H → AsyncEventQueue H
  push q task = record q { event_queue = q.event_queue ++ task ∷ [] }

  unfoldable pub insert : TimedEvent H → List (TimedEvent H) → List (TimedEvent H)
  insert e [] = e ∷ []
  insert e (x ∷ xs) = if ltb e.deadline x.deadline then e ∷ x ∷ xs else x ∷ insert e xs

  unfoldable pub push_timed : AsyncEventQueue H → ℕ → H → AsyncEventQueue H
  unfolding insert
  push_timed q deadline task = record q {
    timed_queue = insert (record { deadline = deadline; task = task }) q.timed_queue;
  }

  unfoldable pub size : AsyncEventQueue H → ℕ
  size q = length q.event_queue + length q.timed_queue

  unfoldable pub empty : AsyncEventQueue H → Bool
  unfolding is_nil
  empty q = is_nil q.event_queue && is_nil q.timed_queue

  unfoldable pub clear : AsyncEventQueue H → AsyncEventQueue H
  clear q = record q { event_queue = []; timed_queue = [] }

  pop_event : AsyncEventQueue H → List H → Option (H × AsyncEventQueue H)
  pop_event q [] = none
  pop_event q (task ∷ rest) = some (task, record q { event_queue = rest })

  pop_timed : ℕ → AsyncEventQueue H → List (TimedEvent H) → Option (H × AsyncEventQueue H)
  unfolding pop_event
  pop_timed now q [] = pop_event q q.event_queue
  pop_timed now q (e ∷ rest) =
      if leb e.deadline now
      then some (e.task, record q { timed_queue = rest })
      else pop_event q q.event_queue

  unfoldable pub try_pop : ℕ → AsyncEventQueue H → Option (H × AsyncEventQueue H)
  unfolding pop_timed
  try_pop now q = pop_timed now q q.timed_queue

  -- The first loop of drain_ready_batch: the tasks that are due, and the queue that is left.
  unfoldable pub drain_timed : ℕ → List (TimedEvent H) → List H × List (TimedEvent H)
  drain_timed now [] = ([], [])
  drain_timed now (e ∷ rest) =
      let (batch, left) = drain_timed now rest in
      if leb e.deadline now then (e.task ∷ batch, left) else ([], e ∷ rest)

  unfoldable pub drain_ready_batch : ℕ → AsyncEventQueue H → List H × AsyncEventQueue H
  unfolding drain_timed
  drain_ready_batch now q =
      let (batch, left) = drain_timed now q.timed_queue in
      (batch ++ q.event_queue, record q { event_queue = []; timed_queue = left })

  wait_for : List (TimedEvent H) → Round H
  wait_for [] = waits
  wait_for (e ∷ rest) = waits_until e.deadline

  after_try : AsyncEventQueue H → Option (H × AsyncEventQueue H) → Round H
  unfolding wait_for
  after_try q (some (task, q')) = takes task q'
  after_try q none = if q.running then wait_for q.timed_queue else ends

  -- A round of the loop of pop_wait, which tries as try_pop does.
  unfoldable pub pop_wait_round : ℕ → AsyncEventQueue H → Round H
  unfolding try_pop after_try
  pop_wait_round now q = after_try q (try_pop now q)

  unfoldable pub start : AsyncEventQueue H → AsyncEventQueue H
  start q = record q { running = true }

  unfoldable pub stop : AsyncEventQueue H → AsyncEventQueue H
  stop q = record q { running = false }
