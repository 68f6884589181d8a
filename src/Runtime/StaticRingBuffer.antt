-- ===== src/Runtime/StaticRingBuffer.antt =====
-- static_ring_buffer.hpp. The template's Capacity is a parameter, and so is the value-initialised
-- element that fills the array at first. The two overloads of push are one function here.
pub mod Invariant
pub mod Refinement
pub mod Traces
mod Examples
use fsmc.Common.{
  ℕ, zero, suc, ◌+◌, ◌-◌, ◌%◌, Bool, true, false, List, [], ◌∷◌, Option, none, some, ◌==◌,
  if◌then◌else◌, get_or, set, replicate,
}

pub data OverflowPolicy : Type 0 where
  drop_oldest drop_incoming assert_on_overflow : OverflowPolicy

pub record StaticRingBuffer {ℓ} (A : Type ℓ) : Type ℓ where
  pub buffer : List A
  pub head : ℕ
  pub tail : ℕ
  pub size : ℕ

-- What push does: it returns a flag and the new buffer, or the program stops at an assertion.
pub data Pushed {ℓ} (S : Type ℓ) : Type ℓ where
  returned : Bool → S → Pushed S
  aborted : Pushed S

module _ {ℓ} {A : Type ℓ} where
  pub empty : StaticRingBuffer A → Bool
  empty b = b.size == 0

  unfoldable pub full : ℕ → StaticRingBuffer A → Bool
  full capacity b = b.size == capacity

  unfoldable pub store : ℕ → StaticRingBuffer A → A → StaticRingBuffer A
  store capacity b value = record {
    buffer = set b.buffer b.tail value;
    head = b.head;
    tail = (b.tail + 1) % capacity;
    size = b.size + 1;
  }

  unfoldable pub drop_head : ℕ → StaticRingBuffer A → StaticRingBuffer A
  drop_head capacity b = record b { head = (b.head + 1) % capacity; size = b.size - 1 }

  unfoldable pub overflow :
      ℕ → Bool → StaticRingBuffer A → A → OverflowPolicy → Pushed (StaticRingBuffer A)
  unfolding store drop_head
  overflow capacity asserts b value drop_incoming = returned false b
  overflow capacity asserts b value assert_on_overflow =
      if asserts then aborted else returned false b
  overflow capacity asserts b value drop_oldest =
      returned true (store capacity (drop_head capacity b) value)

  -- `asserts` says whether the build keeps assertions.
  unfoldable pub push :
      ℕ → Bool → StaticRingBuffer A → A → OverflowPolicy → Pushed (StaticRingBuffer A)
  unfolding full overflow
  push capacity asserts b value policy =
      if full capacity b
      then overflow capacity asserts b value policy
      else returned true (store capacity b value)

  unfoldable pub clear : StaticRingBuffer A → StaticRingBuffer A
  clear b = record b { head = 0; tail = 0; size = 0 }

module _ {ℓ} {A : Type ℓ} (capacity : ℕ) (default : A) where
  unfoldable pub initial : StaticRingBuffer A
  initial = record { buffer = replicate capacity default; head = 0; tail = 0; size = 0 }

  unfoldable pub pop : StaticRingBuffer A → Option (A × StaticRingBuffer A)
  unfolding empty drop_head
  pop b = if empty b then none else some (get_or b.buffer b.head default, drop_head capacity b)

  unfoldable pub peek : StaticRingBuffer A → Option A
  unfolding empty
  peek b = if empty b then none else some (get_or b.buffer b.head default)
