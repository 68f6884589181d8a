-- ===== src/Runtime/StaticRingBuffer/Refinement.antt =====
-- static_ring_buffer.hpp: the buffer against a bounded first-in first-out queue.
use mathlib.Core.List.{tail}
use fsmc.Common.{
  ℕ, get_elem?, ◌≤◌, ◌+◌, ◌%◌, ◌<◌, ◌≡◌, refl, ap, inl, inr, Bool, true, false, List, [], ◌∷◌, ◌++◌,
  Option, none, some, arith, ◌==◌, if◌then◌else◌, Bool-cases, length, get_or,
}
use fsmc.Runtime.Ring.{
  window, length-window, get_elem?-window, window-set_end, window_first, window_none,
}
use fsmc.Runtime.StaticRingBuffer.{
  StaticRingBuffer, OverflowPolicy, drop_oldest, drop_incoming, assert_on_overflow, Pushed,
  returned, aborted, initial, store, drop_head, overflow, push, pop, peek, clear,
}
use fsmc.Runtime.StaticRingBuffer.Invariant.{Inv, drop_head-Inv}

-- What the policies promise of a queue with `capacity` places, oldest element first.
module _ {ℓ} {A : Type ℓ} where
  pub make_room : Bool → List A → A → OverflowPolicy → Pushed (List A)
  make_room asserts queue value drop_incoming = returned false queue
  make_room asserts queue value assert_on_overflow =
      if asserts then aborted else returned false queue
  make_room asserts queue value drop_oldest = returned true (tail queue ++ value ∷ [])

  pub enqueue : ℕ → Bool → List A → A → OverflowPolicy → Pushed (List A)
  unfolding make_room
  enqueue capacity asserts queue value policy =
      if length queue == capacity
      then make_room asserts queue value policy
      else returned true (queue ++ value ∷ [])

  pub enqueue_drop :
      (capacity : ℕ) (queue : List A) (value : A)
      → enqueue capacity false queue value drop_oldest
        ≡ returned true
            (if length queue == capacity then tail queue ++ value ∷ [] else queue ++ value ∷ [])
  unfolding enqueue make_room
  enqueue_drop capacity queue value = elim (Bool-cases (length queue == capacity)) [
    | inl is_full ↦ rw is_full refl
    | inr has_room ↦ rw has_room refl
  ]

  pub dequeue : List A → Option (A × List A)
  dequeue [] = none
  dequeue (x ∷ queue) = some (x, queue)

abbrev pub map_pushed {ℓ} : {S T : Type ℓ} → (S → T) → Pushed S → Pushed T
map_pushed f (returned done s) = returned done (f s)
map_pushed f aborted = aborted

abbrev pub map_popped {ℓ} : {A S T : Type ℓ} → (S → T) → Option (A × S) → Option (A × T)
map_popped f none = none
map_popped f (some (x, s)) = some (x, f s)

drop_head_room {ℓ} :
    {A : Type ℓ} (capacity : ℕ) (b : StaticRingBuffer A)
    → Inv capacity b
    → b.size ≡ capacity
    → (drop_head capacity b).size < capacity
unfolding drop_head
drop_head_room capacity b v is_full = omega arith

abbrev pub map_front {ℓ} : {A S : Type ℓ} → Option (A × S) → Option A
map_front none = none
map_front (some (x, s)) = some x

module _ {ℓ} {A : Type ℓ} (capacity : ℕ) (default : A) where
  -- The elements of the buffer, oldest first.
  pub contents : StaticRingBuffer A → List A
  contents b = window capacity default b.buffer b.head b.size

  pub length-contents : (b : StaticRingBuffer A) → length (contents b) ≡ b.size
  unfolding contents
  length-contents b = length-window capacity default b.buffer b.head b.size

  pub contents-at :
      (b : StaticRingBuffer A) (i : ℕ)
      → b.head < capacity
      → b.size ≤ capacity
      → i < b.size
      → get_elem? (contents b) i ≡ some (get_or b.buffer ((b.head + i) % capacity) default)
  unfolding contents
  contents-at b i h k l = get_elem?-window capacity default b.buffer b.head b.size i h k l

  contents_none : (b : StaticRingBuffer A) → b.size ≡ 0 → contents b ≡ []
  unfolding contents
  contents_none b h = rw h (window_none capacity default b.buffer b.head)

  pub contents-store :
      (b : StaticRingBuffer A) (value : A)
      → Inv capacity b
      → b.size < capacity
      → contents (store capacity b value) ≡ contents b ++ value ∷ []
  unfolding contents store
  contents-store b value v room =
      window-set_end capacity default b.buffer b.head b.size b.tail value v.slots v.head_bound room
        v.tail_at

  contents-drop_head :
      (b : StaticRingBuffer A)
      → 0 < b.size
      → contents b ≡ get_or b.buffer b.head default ∷ contents (drop_head capacity b)
  unfolding contents drop_head
  contents-drop_head b h = window_first capacity default b.buffer b.head b.size h

  overflow_refines :
      (asserts : Bool) (b : StaticRingBuffer A) (value : A) (policy : OverflowPolicy)
      → Inv capacity b
      → b.size ≡ capacity
      → map_pushed contents (overflow capacity asserts b value policy)
        ≡ make_room asserts (contents b) value policy
  unfolding overflow make_room
  overflow_refines asserts b value drop_incoming v is_full = refl
  overflow_refines true b value assert_on_overflow v is_full = refl
  overflow_refines false b value assert_on_overflow v is_full = refl
  overflow_refines asserts b value drop_oldest v is_full =
      let kept = drop_head-Inv capacity b v (omega arith) in
      rw (contents-drop_head b (omega arith)) (
        ap (returned true)
          (contents-store (drop_head capacity b) value kept (drop_head_room capacity b v is_full)))

  -- push does what the bounded queue promises, on every policy, room or not.
  pub push_refines :
      (asserts : Bool) (b : StaticRingBuffer A) (value : A) (policy : OverflowPolicy)
      → Inv capacity b
      → map_pushed contents (push capacity asserts b value policy)
        ≡ enqueue capacity asserts (contents b) value policy
  unfolding push enqueue
  push_refines asserts b value policy v = elim (Bool-cases (b.size == capacity)) [
    | inl is_full ↦
        rw (length-contents b, is_full) (overflow_refines asserts b value policy v (ground arith))
    | inr has_room ↦
        rw (length-contents b, has_room)
          (ap (returned true) (contents-store b value v (ground arith)))
  ]

  pub pop_refines :
      (b : StaticRingBuffer A) → map_popped contents (pop capacity default b) ≡ dequeue (contents b)
  unfolding pop dequeue
  pop_refines b = elim (Bool-cases (b.size == 0)) [
    | inl is_empty ↦ rw (is_empty, contents_none b (ground arith))
    | inr has_item ↦ rw (has_item, contents-drop_head b (ground arith))
  ]

  pub peek_refines :
      (b : StaticRingBuffer A) → peek capacity default b ≡ map_front (dequeue (contents b))
  unfolding peek dequeue
  peek_refines b = elim (Bool-cases (b.size == 0)) [
    | inl is_empty ↦ rw (is_empty, contents_none b (ground arith))
    | inr has_item ↦ rw (has_item, contents-drop_head b (ground arith))
  ]

  pub contents-clear : (b : StaticRingBuffer A) → contents (clear b) ≡ []
  unfolding clear
  contents-clear b = contents_none _ refl

  pub contents-initial : contents (initial capacity default) ≡ []
  unfolding initial
  contents-initial = contents_none _ refl
