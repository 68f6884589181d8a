-- ===== src/Runtime/FlightRecorder/Trail.antt =====
-- flight_recorder.hpp: recording is a push into a ring buffer that drops the oldest element, and the
-- entries read back are those of that buffer.
use mathlib.Core.Path.{ap₂, subst}
use mathlib.Core.List.{tail}
use fsmc.Common.{
  ℕ, ◌+◌, ◌-◌, ◌%◌, ◌<◌, ◌≡◌, refl, ap, ◌∙◌, sym, inl, inr, Bool, true, false, List, [], ◌∷◌, ◌++◌,
  some, ◌==◌, if◌then◌else◌, nil_of_length, length, length-replicate, get_elem?, set, Bool-cases,
  arith,
}
use fsmc.Runtime.Ring.{succ_mod, add_mod}
use fsmc.Runtime.StaticRingBuffer.{
  StaticRingBuffer, drop_oldest, Pushed, returned, aborted, push, overflow, store, drop_head, full,
}
use fsmc.Runtime.StaticRingBuffer.Invariant.{Inv, PushedInv, push-Inv}
use fsmc.Runtime.StaticRingBuffer.Refinement.{
  contents, map_pushed, push_refines, enqueue_drop, length-contents, contents-at,
}
use fsmc.Runtime.FlightRecorder.{
  TraceEntry, TraceBuffer, blank, initial, record_entry, at, last_entry,
}

pushed_state : List TraceEntry → Pushed (List TraceEntry) → List TraceEntry
pushed_state kept (returned done s) = s
pushed_state kept aborted = kept

returned_same : {xs ys : List TraceEntry} → returned true xs ≡ returned true ys → xs ≡ ys
unfolding pushed_state
returned_same {xs} e = ap (pushed_state xs) e

module _ (capacity : ℕ) where
  abbrev pub start : TraceBuffer → ℕ
  start b = if b.count == capacity then b.head else 0

  -- The trace buffer as a ring buffer.
  abbrev pub ring : TraceBuffer → StaticRingBuffer TraceEntry
  ring b = record { buffer = b.buffer; head = start b; tail = b.head; size = b.count }

  -- Until the buffer is full, it is filled from the front.
  pub record Filled (b : TraceBuffer) : Type 0 where
    pub valid : Inv capacity (ring b)
    pub from_front : b.count < capacity → b.head ≡ b.count

  next_head :
      (b : TraceBuffer) (entry : TraceEntry)
      → 0 < capacity
      → Filled b
      → start (record_entry capacity b entry)
        ≡ (if b.count == capacity then (b.head + 1) % capacity else 0)
  unfolding record_entry
  next_head b entry h f =
      ground (arith, h, f.from_front, f.valid.size_bound, succ_mod capacity b.head)

  next_count :
      (b : TraceBuffer) (entry : TraceEntry)
      → 0 < capacity
      → Filled b
      → (record_entry capacity b entry).count
        ≡ (if b.count == capacity then b.count - 1 + 1 else b.count + 1)
  unfolding record_entry
  next_count b entry h f = ground (arith, h, f.valid.size_bound)

  pushed :
      (asserts : Bool) (b : TraceBuffer) (entry : TraceEntry)
      → push capacity asserts (ring b) entry drop_oldest
        ≡ returned true (record {
          buffer = set b.buffer b.head entry;
          head = if b.count == capacity then (b.head + 1) % capacity else 0;
          tail = (b.head + 1) % capacity;
          size = if b.count == capacity then b.count - 1 + 1 else b.count + 1;
        })
  unfolding push full overflow store drop_head
  pushed asserts b entry = elim (Bool-cases (b.count == capacity)) [
    | inl is_full ↦ rw is_full refl
    | inr room ↦ rw room refl
  ]

  -- Recording is a push under the policy drop_oldest.
  pub record_entry-push :
      (asserts : Bool) (b : TraceBuffer) (entry : TraceEntry)
      → 0 < capacity
      → Filled b
      → push capacity asserts (ring b) entry drop_oldest
        ≡ returned true (ring (record_entry capacity b entry))
  unfolding record_entry
  record_entry-push asserts b entry h f =
      pushed asserts b entry
      ∙ ap₂ {A = ℕ} {B = ℕ}
          (λ s n. returned true (record {
            buffer = set b.buffer b.head entry;
            head = s;
            tail = (b.head + 1) % capacity;
            size = n;
          }))
          (sym (next_head b entry h f)) (sym (next_count b entry h f))

  pub record_entry-Filled :
      (b : TraceBuffer) (entry : TraceEntry)
      → 0 < capacity
      → Filled b
      → Filled (record_entry capacity b entry)
  unfolding record_entry
  record_entry-Filled b entry h f = record {
    valid =
        subst (PushedInv capacity) (record_entry-push false b entry h f)
          (push-Inv capacity false (ring b) entry drop_oldest f.valid);
    from_front = ground (arith, h, f.from_front, f.valid.size_bound, succ_mod capacity b.head);
  }

  pub initial-Filled : 0 < capacity → Filled (initial capacity)
  unfolding initial
  initial-Filled h = record {
    valid = record {
      slots = length-replicate capacity blank;
      head_bound = ground arith;
      size_bound = omega arith;
      tail_at = ground (arith, add_mod capacity 0 0 h);
    };
    from_front = λ k. refl;
  }

  -- The entries in the buffer, oldest first.
  pub entries : TraceBuffer → List TraceEntry
  entries b = contents capacity blank (ring b)

  -- A new entry displaces the oldest one of a full buffer.
  pub remember : List TraceEntry → TraceEntry → List TraceEntry
  remember kept entry =
      if length kept == capacity then tail kept ++ entry ∷ [] else kept ++ entry ∷ []

  pub entries-record_entry :
      (b : TraceBuffer) (entry : TraceEntry)
      → 0 < capacity
      → Filled b
      → entries (record_entry capacity b entry) ≡ remember (entries b) entry
  unfolding entries remember
  entries-record_entry b entry h f = returned_same (
      sym (ap (map_pushed (contents capacity blank)) (record_entry-push false b entry h f))
      ∙ push_refines capacity blank false (ring b) entry drop_oldest f.valid
      ∙ enqueue_drop capacity (contents capacity blank (ring b)) entry)

  pub length-entries : (b : TraceBuffer) → length (entries b) ≡ b.count
  unfolding entries
  length-entries b = length-contents capacity blank (ring b)

  pub remember_room :
      (kept : List TraceEntry) (entry : TraceEntry)
      → (length kept == capacity) ≡ false
      → remember kept entry ≡ kept ++ entry ∷ []
  unfolding remember
  remember_room kept entry h = rw h refl

  pub remember_full :
      (kept : List TraceEntry) (entry : TraceEntry)
      → (length kept == capacity) ≡ true
      → remember kept entry ≡ tail kept ++ entry ∷ []
  unfolding remember
  remember_full kept entry h = rw h refl

  -- The entry at an index, and the last one.
  pub entries-at :
      (b : TraceBuffer) (index : ℕ)
      → Filled b
      → index < b.count
      → get_elem? (entries b) index ≡ some (at capacity b index)
  unfolding entries at
  entries-at b index f h =
      contents-at capacity blank (ring b) index f.valid.head_bound (omega arith) h

  last_slot :
      (b : TraceBuffer)
      → Filled b
      → 0 < b.count
      → (b.head + capacity - 1) % capacity ≡ (start b + (b.count - 1)) % capacity
  last_slot b f h = elim (Bool-cases (b.count == capacity)) [
    | inl is_full ↦
        let same : b.head + capacity - 1 ≡ b.head + (b.count - 1) = ground arith in
        rw (is_full, same) refl
    | inr room ↦
        let below : b.count < capacity = ground (arith, f.valid.size_bound) in
        let front = f.from_front below in
        let wraps : b.head + capacity - 1 ≡ b.count - 1 + capacity = omega arith in
        rw (room, wraps)
          (ground
            (arith, add_mod capacity (b.count - 1) capacity, add_mod capacity 0 (b.count - 1)))
  ]

  pub entries-last_entry :
      (b : TraceBuffer)
      → Filled b
      → 0 < b.count
      → last_entry capacity b ≡ some (at capacity b (b.count - 1))
  unfolding last_entry at
  entries-last_entry b f h =
      let some_entry : (b.count == 0) ≡ false = ground arith in
      rw (some_entry, last_slot b f h) refl

  pub entries-initial : entries (initial capacity) ≡ []
  unfolding initial
  entries-initial = nil_of_length (entries (initial capacity)) (length-entries (initial capacity))
