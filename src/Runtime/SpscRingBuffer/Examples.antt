-- ===== src/Runtime/SpscRingBuffer/Examples.antt =====
-- A run of both threads, and an instance of the theorem about it.
use native.Mathlib.Nat.{dvd-mul_right}
use fsmc.Common.{ℕ, ◌≡◌, refl, List, [], ◌∷◌, arith}
use fsmc.Runtime.SpscRingBuffer.{
  System, Move, produces, consumes, initial, schedule, emplace_step, pop_step, get_slot,
}
use fsmc.Runtime.SpscRingBuffer.Moves.{Fifo, schedule-Fifo}

-- The consumer loads head_ while the producer is about to store it.
abbrev moves : List (Move ℕ)
moves =
    produces 5
    ∷ produces 5
    ∷ consumes
    ∷ produces 5
    ∷ produces 5
    ∷ consumes
    ∷ produces 6
    ∷ consumes
    ∷ produces 6
    ∷ produces 6
    ∷ consumes
    ∷ produces 6
    ∷ []

abbrev popped_in : System ℕ → List ℕ
popped_in s = s.popped

popped_runs : popped_in (schedule 2 0 moves (initial 2 0)) ≡ 5 ∷ []
unfolding schedule emplace_step pop_step initial get_slot
popped_runs = refl

schedule-Fifo_example : Fifo 2 (schedule 2 0 moves (initial 2 0))
schedule-Fifo_example =
    schedule-Fifo 2 0 (dvd-mul_right 2 9223372036854775808) (omega arith) (omega arith) moves
