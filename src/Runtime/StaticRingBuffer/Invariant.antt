-- ===== src/Runtime/StaticRingBuffer/Invariant.antt =====
-- static_ring_buffer.hpp: what every operation keeps of the indices.
use fsmc.Common.{
  ℕ, ◌+◌, ◌-◌, ◌%◌, ◌≤◌, ◌<◌, ◌≡◌, Bool, some, arith, length, length-set, length-replicate,
}
use fsmc.Runtime.Ring.{succ_mod, add_mod}
use fsmc.Runtime.StaticRingBuffer.{
  StaticRingBuffer, OverflowPolicy, drop_oldest, drop_incoming, assert_on_overflow, Pushed,
  returned, aborted, initial, store, drop_head, push, pop, clear,
}

-- The tail is `size` slots ahead of the head, and the indices lie in the array.
pub record Inv {ℓ} {A : Type ℓ} (capacity : ℕ) (b : StaticRingBuffer A) : Type 0 where
  pub slots : length b.buffer ≡ capacity
  pub head_bound : b.head < capacity
  pub size_bound : b.size ≤ capacity
  pub tail_at : b.tail ≡ (b.head + b.size) % capacity

abbrev pub PushedInv {ℓ} : {A : Type ℓ} → ℕ → Pushed (StaticRingBuffer A) → Type 0
PushedInv capacity (returned done b) = Inv capacity b
PushedInv capacity aborted = Unit

module _ {ℓ} {A : Type ℓ} (capacity : ℕ) where
  pub tail_bound : (b : StaticRingBuffer A) → Inv capacity b → b.tail < capacity
  tail_bound b v = ground (arith, add_mod capacity b.head b.size)

  pub store-Inv :
      (b : StaticRingBuffer A) (value : A)
      → Inv capacity b
      → b.size < capacity
      → Inv capacity (store capacity b value)
  unfolding store
  store-Inv b value v room = record {
    slots = ground (arith, length-set b.buffer b.tail value);
    head_bound = v.head_bound;
    size_bound = omega arith;
    tail_at = ground (
      arith,
      add_mod capacity b.head b.size,
      add_mod capacity b.head (b.size + 1),
      succ_mod capacity b.tail,
    );
  }

  pub drop_head-Inv :
      (b : StaticRingBuffer A) → Inv capacity b → 0 < b.size → Inv capacity (drop_head capacity b)
  unfolding drop_head
  drop_head-Inv b v some_item = record {
    slots = v.slots;
    head_bound = ground (arith, succ_mod capacity b.head);
    size_bound = omega arith;
    tail_at = ground (
      arith,
      add_mod capacity b.head b.size,
      succ_mod capacity b.head,
      add_mod capacity ((b.head + 1) % capacity) (b.size - 1),
    );
  }

  -- push keeps the invariant under every overflow policy.
  pub push-Inv :
      (asserts : Bool) (b : StaticRingBuffer A) (value : A) (policy : OverflowPolicy)
      → Inv capacity b
      → PushedInv capacity (push capacity asserts b value policy)
  unfolding push
  push-Inv asserts b value drop_incoming v = ground (arith, store-Inv b value v)
  push-Inv asserts b value assert_on_overflow v = ground (arith, store-Inv b value v)
  push-Inv asserts b value drop_oldest v =
      ground (arith, store-Inv b value v, drop_head-Inv b v, store-Inv (drop_head capacity b) value)

  pub pop-Inv :
      (default item : A) (b b' : StaticRingBuffer A)
      → Inv capacity b
      → pop capacity default b ≡ some (item, b')
      → Inv capacity b'
  unfolding pop
  pop-Inv default item b b' v e = ground (arith, drop_head-Inv b v)

  pub initial-Inv : (default : A) → 0 < capacity → Inv capacity (initial capacity default)
  unfolding initial
  initial-Inv default h = record {
    slots = length-replicate capacity default;
    head_bound = h;
    size_bound = omega arith;
    tail_at = ground (arith, add_mod capacity 0 0 h);
  }

  pub clear-Inv : (b : StaticRingBuffer A) → Inv capacity b → Inv capacity (clear b)
  unfolding clear
  clear-Inv b v = record {
    slots = v.slots;
    head_bound = omega arith;
    size_bound = omega arith;
    tail_at = ground (arith, add_mod capacity 0 0);
  }
