-- ===== src/Runtime/StaticRingBuffer/Examples.antt =====
-- Runs of the ring buffer, and instances of its theorems.
use fsmc.Common.{ℕ, ◌≡◌, refl, true, false, List, [], ◌∷◌, none, some, arith}
use fsmc.Runtime.StaticRingBuffer.{drop_oldest, drop_incoming, initial, push, pop}
use fsmc.Runtime.StaticRingBuffer.Traces.{
  Call, pushes, pops, pushed, found, serve, promise, serve-promise,
}

-- A buffer of two places that overflows and wraps around.
abbrev calls : List (Call ℕ)
calls =
    pushes 1 drop_incoming
    ∷ pushes 2 drop_incoming
    ∷ pushes 3 drop_incoming
    ∷ pushes 4 drop_oldest
    ∷ pops
    ∷ pushes 5 drop_incoming
    ∷ pops
    ∷ pops
    ∷ pops
    ∷ []

serve_runs :
    serve 2 true 0 calls (initial 2 0)
    ≡ pushed true
      ∷ pushed true
      ∷ pushed false
      ∷ pushed true
      ∷ found (some 2)
      ∷ pushed true
      ∷ found (some 4)
      ∷ found (some 5)
      ∷ found none
      ∷ []
unfolding serve initial push pop
serve_runs = refl

serve-promise_example : serve 2 true 0 calls (initial 2 0) ≡ promise 2 true calls []
serve-promise_example = serve-promise 2 0 true calls (omega arith)
