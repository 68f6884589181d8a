-- ===== src/Runtime/AsyncEventQueue/Draining.antt =====
-- async_event_queue.hpp: what a drained batch holds.
use fsmc.Common.{
  ℕ, zero, suc, ◌+◌, ◌≤◌, ◌<◌, ◌≡◌, refl, ap, ◌∙◌, inl, inr, Bool, true, false, List, [], ◌∷◌, ◌++◌,
  Option, none, some, leb, ltb, length, Bool-cases, arith, keep_if, not,
}
use fsmc.Runtime.AsyncEventQueue.{
  TimedEvent, AsyncEventQueue, push_timed, insert, size, pop_event, pop_timed, try_pop, drain_timed,
  drain_ready_batch,
}

module _ {ℓ} {H : Type ℓ} where
  -- No task of a list has an earlier deadline than `d`.
  abbrev pub From : ℕ → List (TimedEvent H) → Type 0
  From d [] = Unit
  From d (e ∷ es) = (d ≤ e.deadline) × From d es

  abbrev pub Sorted : List (TimedEvent H) → Type 0
  Sorted [] = Unit
  Sorted (e ∷ es) = From e.deadline es × Sorted es

  From-weaken : (c d : ℕ) (es : List (TimedEvent H)) → c ≤ d → From d es → From c es
  From-weaken c d [] h f = tt
  From-weaken c d (e ∷ es) h f = (omega (arith, f.0), From-weaken c d es h f.1)

  From-insert :
      (d : ℕ) (e : TimedEvent H) (es : List (TimedEvent H))
      → d ≤ e.deadline
      → From d es
      → From d (insert e es)
  unfolding insert
  From-insert d e [] h f = (h, tt)
  From-insert d e (x ∷ xs) h f = elim (Bool-cases (ltb e.deadline x.deadline)) [
    | inl before ↦ rw before (h, f)
    | inr behind ↦ rw behind (f.0, From-insert d e xs h f.1)
  ]

  pub insert-Sorted :
      (e : TimedEvent H) (es : List (TimedEvent H)) → Sorted es → Sorted (insert e es)
  unfolding insert
  insert-Sorted e [] s = (tt, tt)
  insert-Sorted e (x ∷ xs) s = elim (Bool-cases (ltb e.deadline x.deadline)) [
    | inl before ↦
        let le : e.deadline ≤ x.deadline = ground arith in
        rw before ((le, From-weaken e.deadline x.deadline xs le s.0), s)
    | inr behind ↦
        rw behind (From-insert x.deadline e xs (ground arith) s.0, insert-Sorted e xs s.1)
  ]

  -- Whether a task is due.
  abbrev pub due : ℕ → TimedEvent H → Bool
  due now e = leb e.deadline now

  abbrev pub tasks : List (TimedEvent H) → List H
  tasks [] = []
  tasks (e ∷ es) = e.task ∷ tasks es

  none_due :
      (now d : ℕ) (es : List (TimedEvent H))
      → now < d
      → From d es
      → (keep_if (due now) es ≡ []) × (keep_if (λ e. not (due now e)) es ≡ es)
  none_due now d [] h f = (refl, refl)
  none_due now d (e ∷ es) h f =
      let late : due now e ≡ false = ground (arith, f.0) in
      let (nothing, all) = none_due now d es h f.1 in rw late (nothing, ap (◌∷◌ e) all)

  drain_timed-due :
      (now : ℕ) (es : List (TimedEvent H))
      → Sorted es
      → ((drain_timed now es).0 ≡ tasks (keep_if (due now) es))
        × ((drain_timed now es).1 ≡ keep_if (λ e. not (due now e)) es)
  unfolding drain_timed
  drain_timed-due now [] s = (refl, refl)
  drain_timed-due now (e ∷ es) s = elim (Bool-cases (due now e)) [
    | inl ready ↦
        let (batch, left) = drain_timed-due now es s.1 in rw ready (ap (◌∷◌ e.task) batch, left)
    | inr late ↦
        let (nothing, all) = none_due now e.deadline es (ground arith) s.0 in
        rw (late, nothing, all) (refl, refl)
  ]

  add_task : H → Option (List H × AsyncEventQueue H) → Option (List H × AsyncEventQueue H)
  add_task task none = none
  add_task task (some (batch, q)) = some (task ∷ batch, q)

  after_pop :
      (AsyncEventQueue H → Option (List H × AsyncEventQueue H))
      → AsyncEventQueue H
      → Option (H × AsyncEventQueue H)
      → Option (List H × AsyncEventQueue H)
  unfolding add_task
  after_pop rest q none = some ([], q)
  after_pop rest q (some (task, q')) = add_task task (rest q')

  -- try_pop, called until it finds nothing, with fuel.
  pub pop_all : ℕ → ℕ → AsyncEventQueue H → Option (List H × AsyncEventQueue H)
  unfolding after_pop
  pop_all zero now q = none
  pop_all (suc fuel) now q = after_pop (pop_all fuel now) q (try_pop now q)

  abbrev queue : List H → List (TimedEvent H) → Bool → AsyncEventQueue H
  queue events timed running = record {
    event_queue = events;
    timed_queue = timed;
    running = running;
  }

  abbrev NoneDue : ℕ → List (TimedEvent H) → Type 0
  NoneDue now [] = Unit
  NoneDue now (e ∷ es) = due now e ≡ false

  try_pop_event :
      (now : ℕ) (events : List H) (timed : List (TimedEvent H)) (running : Bool)
      → NoneDue now timed
      → try_pop now (queue events timed running) ≡ pop_event (queue events timed running) events
  unfolding try_pop pop_timed
  try_pop_event now events [] running h = refl
  try_pop_event now events (e ∷ es) running h = rw h refl

  pop_all_events :
      (fuel now : ℕ) (events : List H) (timed : List (TimedEvent H)) (running : Bool)
      → NoneDue now timed
      → length events < fuel
      → pop_all fuel now (queue events timed running) ≡ some (events, queue [] timed running)
  unfolding pop_all after_pop pop_event add_task
  pop_all_events zero now events timed running h k = absurd (omega arith)
  pop_all_events (suc fuel) now [] timed running h k =
      rw (try_pop_event now [] timed running h) refl
  pop_all_events (suc fuel) now (task ∷ events) timed running h k =
      rw
        (
          try_pop_event now (task ∷ events) timed running h,
          pop_all_events fuel now events timed running h (omega arith),
        )
        refl

  pop_first :
      (fuel now : ℕ) (events : List H) (e : TimedEvent H) (es : List (TimedEvent H))
      (running : Bool)
      → due now e ≡ true
      → pop_all (suc fuel) now (queue events (e ∷ es) running)
        ≡ add_task e.task (pop_all fuel now (queue events es running))
  unfolding pop_all after_pop try_pop pop_timed
  pop_first fuel now events e es running ready = rw ready refl

  drain_first :
      (now : ℕ) (events : List H) (e : TimedEvent H) (es : List (TimedEvent H)) (running : Bool)
      → due now e ≡ true
      → add_task e.task (some (drain_ready_batch now (queue events es running)))
        ≡ some (drain_ready_batch now (queue events (e ∷ es) running))
  unfolding drain_ready_batch drain_timed add_task
  drain_first now events e es running ready = rw ready refl

  pop_all-drain :
      (fuel now : ℕ) (events : List H) (timed : List (TimedEvent H)) (running : Bool)
      → length timed + length events < fuel
      → pop_all fuel now (queue events timed running)
        ≡ some (drain_ready_batch now (queue events timed running))
  unfolding drain_ready_batch drain_timed
  pop_all-drain fuel now events [] running k =
      pop_all_events fuel now events [] running tt (omega arith)
  pop_all-drain zero now events (e ∷ es) running k = absurd (omega arith)
  pop_all-drain (suc fuel) now events (e ∷ es) running k = elim (Bool-cases (due now e)) [
    | inl ready ↦
        pop_first fuel now events e es running ready
        ∙ ap (add_task e.task) (pop_all-drain fuel now events es running (omega arith))
        ∙ drain_first now events e es running ready
    | inr late ↦
        pop_all_events (suc fuel) now events (e ∷ es) running late (omega arith) ∙ rw late refl
  ]

  -- What a drained batch promises.
  pub record Drained (now : ℕ) (q : AsyncEventQueue H) (result : List H × AsyncEventQueue H)
      : Type ℓ where
    pub batch : result.0 ≡ tasks (keep_if (due now) q.timed_queue) ++ q.event_queue
    pub left : result.1.timed_queue ≡ keep_if (λ e. not (due now e)) q.timed_queue
    pub no_events : result.1.event_queue ≡ []
    pub pops : pop_all (size q + 1) now q ≡ some result

  -- On a queue whose timed tasks stand in the order of their deadlines, drain_ready_batch takes the
  -- timed tasks that are due, in that order, and then all the others in theirs, and leaves the timed
  -- tasks that are not due: what try_pop gives when it is called at the same time until it finds nothing.
  pub drain_ready_batch-Drained :
      (now : ℕ) (q : AsyncEventQueue H)
      → Sorted q.timed_queue
      → Drained now q (drain_ready_batch now q)
  unfolding drain_ready_batch size
  drain_ready_batch-Drained now q s =
      let (batch, left) = drain_timed-due now q.timed_queue s in
      record {
        batch = ap (λ xs. xs ++ q.event_queue) batch;
        left = left;
        no_events = refl;
        pops = pop_all-drain (size q + 1) now q.event_queue q.timed_queue q.running (omega arith);
      }

  -- push_timed keeps the timed tasks in the order of their deadlines.
  pub push_timed-Sorted :
      (q : AsyncEventQueue H) (deadline : ℕ) (task : H)
      → Sorted q.timed_queue
      → Sorted (push_timed q deadline task).timed_queue
  unfolding push_timed
  push_timed-Sorted q deadline task s =
      insert-Sorted (record { deadline = deadline; task = task }) q.timed_queue s
