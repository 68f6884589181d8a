-- ===== src/Runtime/SpscRingBuffer.antt =====
-- spsc_ring_buffer.hpp: one producer thread and one consumer thread on two atomic indices, which count
-- modulo 2 ^ 64. The operations are cut at their accesses to shared memory, and a schedule says which
-- thread moves next; a load with acquire order sees what was written before the store that it reads
-- from, so the accesses of a schedule take effect in its order. `index & IndexMask` is the remainder by
-- the capacity, a power of two. The storage of a destroyed element keeps a stale value.
pub mod Counting
pub mod Interleaving
pub mod Moves
mod Examples
use fsmc.Common.{
  ℕ, ◌+◌, ◌-◌, ◌%◌, ◌^◌, Bool, true, false, List, [], ◌∷◌, ◌++◌, ◌==◌, leb, if◌then◌else◌, get_or,
  set, replicate,
}

pub record SpscRingBuffer {ℓ} (A : Type ℓ) : Type ℓ where
  pub head : ℕ
  pub tail : ℕ
  pub storage : List A

-- Where the producer is in `emplace`: before it, after the load of head_, after that of tail_, and
-- after the element is constructed.
pub data Producer {ℓ} (A : Type ℓ) : Type ℓ where
  idle : Producer A
  has_head : A → ℕ → Producer A
  has_both : A → ℕ → ℕ → Producer A
  constructed : A → ℕ → Producer A

-- Where the consumer is in `pop`: before it, after the load of tail_, after that of head_, and after
-- the element is moved out and destroyed.
pub data Consumer {ℓ} (A : Type ℓ) : Type ℓ where
  waiting : Consumer A
  has_tail : ℕ → Consumer A
  has_ends : ℕ → ℕ → Consumer A
  moved : A → ℕ → Consumer A

-- The buffer, its threads, and the elements that were pushed and popped with success so far.
pub record System {ℓ} (A : Type ℓ) : Type ℓ where
  pub buffer : SpscRingBuffer A
  pub producer : Producer A
  pub consumer : Consumer A
  pub pushed : List A
  pub popped : List A

-- `a - b` on std::size_t.
abbrev pub minus : ℕ → ℕ → ℕ
minus a b = (a + 2 ^ 64 - b) % 2 ^ 64

module _ {ℓ} {A : Type ℓ} (capacity : ℕ) (default : A) where
  unfoldable pub get_slot : ℕ → ℕ
  get_slot index = index % capacity

  unfoldable pub initial : System A
  initial = record {
    buffer = record { head = 0; tail = 0; storage = replicate capacity default };
    producer = idle;
    consumer = waiting;
    pushed = [];
    popped = [];
  }

  -- The next access of the producer; `item` is what it pushes next.
  unfoldable pub emplace_step : A → Producer A → System A → System A
  unfolding get_slot
  emplace_step item idle s = record s { producer = has_head item s.buffer.head }
  emplace_step item (has_head x head) s = record s { producer = has_both x head s.buffer.tail }
  emplace_step item (has_both x head tail) s =
      if leb capacity (minus head tail) then record s { producer = idle } else record s {
        buffer = record {
          head = s.buffer.head;
          tail = s.buffer.tail;
          storage = set s.buffer.storage (get_slot head) x;
        };
        producer = constructed x head;
      }
  emplace_step item (constructed x head) s = record s {
    buffer = record {
      head = (head + 1) % 2 ^ 64;
      tail = s.buffer.tail;
      storage = s.buffer.storage;
    };
    producer = idle;
    pushed = s.pushed ++ x ∷ [];
  }

  unfoldable pub pop_step : Consumer A → System A → System A
  unfolding get_slot
  pop_step waiting s = record s { consumer = has_tail s.buffer.tail }
  pop_step (has_tail tail) s = record s { consumer = has_ends tail s.buffer.head }
  pop_step (has_ends tail head) s =
      if tail == head
      then record s { consumer = waiting }
      else record s { consumer = moved (get_or s.buffer.storage (get_slot tail) default) tail }
  pop_step (moved x tail) s = record s {
    buffer = record {
      head = s.buffer.head;
      tail = (tail + 1) % 2 ^ 64;
      storage = s.buffer.storage;
    };
    consumer = waiting;
    popped = s.popped ++ x ∷ [];
  }

-- Which thread moves next, and what the producer pushes if it starts.
pub data Move {ℓ} (A : Type ℓ) : Type ℓ where
  produces : A → Move A
  consumes : Move A

module _ {ℓ} {A : Type ℓ} (capacity : ℕ) (default : A) where
  unfoldable pub schedule : List (Move A) → System A → System A
  unfolding emplace_step pop_step
  schedule [] s = s
  schedule (produces item ∷ moves) s =
      schedule moves (emplace_step capacity default item s.producer s)
  schedule (consumes ∷ moves) s = schedule moves (pop_step capacity default s.consumer s)
