-- ===== src/Runtime/StaticRingBuffer/Traces.antt =====
-- static_ring_buffer.hpp: a client's calls in sequence, and what it sees of them.
use fsmc.Common.{ℕ, ◌<◌, ◌≡◌, refl, ap, ◌∙◌, Bool, List, [], ◌∷◌, Option, none, some}
use fsmc.Runtime.StaticRingBuffer.{
  StaticRingBuffer, OverflowPolicy, Pushed, returned, aborted, initial, push, pop, peek, clear,
}
use fsmc.Runtime.StaticRingBuffer.Invariant.{
  Inv, PushedInv, push-Inv, pop-Inv, initial-Inv, clear-Inv,
}
use fsmc.Runtime.StaticRingBuffer.Refinement.{
  enqueue, dequeue, map_pushed, map_popped, map_front, contents, push_refines, pop_refines,
  peek_refines, contents-clear, contents-initial,
}

pub data Call {ℓ} (A : Type ℓ) : Type ℓ where
  pushes : A → OverflowPolicy → Call A
  pops peeks clears : Call A

pub data Reply {ℓ} (A : Type ℓ) : Type ℓ where
  pushed : Bool → Reply A
  found : Option A → Reply A
  cleared stopped : Reply A

module _ {ℓ} {A : Type ℓ} where
  after_push : {S : Type ℓ} → (S → List (Reply A)) → Pushed S → List (Reply A)
  after_push rest (returned done s) = pushed done ∷ rest s
  after_push rest aborted = stopped ∷ []

  after_pop : {S : Type ℓ} → (S → List (Reply A)) → S → Option (A × S) → List (Reply A)
  after_pop rest s none = found none ∷ rest s
  after_pop rest s (some (x, s')) = found (some x) ∷ rest s'

  -- The replies of a buffer to a sequence of calls; an assertion that fails ends it.
  unfoldable pub serve : ℕ → Bool → A → List (Call A) → StaticRingBuffer A → List (Reply A)
  unfolding after_push after_pop
  serve capacity asserts default [] b = []
  serve capacity asserts default (pushes x policy ∷ calls) b =
      after_push (serve capacity asserts default calls) (push capacity asserts b x policy)
  serve capacity asserts default (pops ∷ calls) b =
      after_pop (serve capacity asserts default calls) b (pop capacity default b)
  serve capacity asserts default (peeks ∷ calls) b =
      found (peek capacity default b) ∷ serve capacity asserts default calls b
  serve capacity asserts default (clears ∷ calls) b =
      cleared ∷ serve capacity asserts default calls (clear b)

  -- The replies of the bounded queue.
  pub promise : ℕ → Bool → List (Call A) → List A → List (Reply A)
  unfolding after_push after_pop
  promise capacity asserts [] queue = []
  promise capacity asserts (pushes x policy ∷ calls) queue =
      after_push (promise capacity asserts calls) (enqueue capacity asserts queue x policy)
  promise capacity asserts (pops ∷ calls) queue =
      after_pop (promise capacity asserts calls) queue (dequeue queue)
  promise capacity asserts (peeks ∷ calls) queue =
      found (map_front (dequeue queue)) ∷ promise capacity asserts calls queue
  promise capacity asserts (clears ∷ calls) queue = cleared ∷ promise capacity asserts calls []

module _ {ℓ} {A : Type ℓ} (capacity : ℕ) (default : A) where
  after_push_refines :
      (rest : StaticRingBuffer A → List (Reply A)) (rest' : List A → List (Reply A))
      → ((b : StaticRingBuffer A) → Inv capacity b → rest b ≡ rest' (contents capacity default b))
      → (r : Pushed (StaticRingBuffer A)) → PushedInv capacity r
      → after_push rest r ≡ after_push rest' (map_pushed (contents capacity default) r)
  unfolding after_push
  after_push_refines rest rest' agree (returned done b) v = ap (◌∷◌ (pushed done)) (agree b v)
  after_push_refines rest rest' agree aborted v = refl

  after_pop_refines :
      (rest : StaticRingBuffer A → List (Reply A)) (rest' : List A → List (Reply A))
      → ((b : StaticRingBuffer A) → Inv capacity b → rest b ≡ rest' (contents capacity default b))
      → (b : StaticRingBuffer A) → Inv capacity b
      → (r : Option (A × StaticRingBuffer A)) → pop capacity default b ≡ r
      → after_pop rest b r
        ≡ after_pop rest' (contents capacity default b) (map_popped (contents capacity default) r)
  unfolding after_pop
  after_pop_refines rest rest' agree b v none e = ap (◌∷◌ (found none)) (agree b v)
  after_pop_refines rest rest' agree b v (some (x, b')) e =
      ap (◌∷◌ (found (some x))) (agree b' (pop-Inv capacity default x b b' v e))

  serve_agrees :
      (asserts : Bool) (calls : List (Call A)) (b : StaticRingBuffer A)
      → Inv capacity b
      → serve capacity asserts default calls b
        ≡ promise capacity asserts calls (contents capacity default b)
  unfolding serve promise
  serve_agrees asserts [] b v = refl
  serve_agrees asserts (pushes x policy ∷ calls) b v =
      rw (← push_refines capacity default asserts b x policy v) (
        after_push_refines (serve capacity asserts default calls) (promise capacity asserts calls)
          (serve_agrees asserts calls) _ (push-Inv capacity asserts b x policy v))
  serve_agrees asserts (pops ∷ calls) b v = rw (← pop_refines capacity default b) (
      after_pop_refines (serve capacity asserts default calls) (promise capacity asserts calls)
        (serve_agrees asserts calls) b v _ refl)
  serve_agrees asserts (peeks ∷ calls) b v = rw (peek_refines capacity default b) (
      ap (λ r. found (map_front (dequeue (contents capacity default b))) ∷ r)
        (serve_agrees asserts calls b v))
  serve_agrees asserts (clears ∷ calls) b v = ap (◌∷◌ cleared) (
      serve_agrees asserts calls (clear b) (clear-Inv capacity b v)
      ∙ ap (promise capacity asserts calls) (contents-clear capacity default b))

  -- A buffer of a positive capacity answers every sequence of push, pop, peek and clear calls as
  -- the bounded first-in first-out queue does, under each overflow policy.
  pub serve-promise :
      (asserts : Bool) (calls : List (Call A))
      → 0 < capacity
      → serve capacity asserts default calls (initial capacity default)
        ≡ promise capacity asserts calls []
  serve-promise asserts calls h =
      serve_agrees asserts calls (initial capacity default) (initial-Inv capacity default h)
      ∙ ap (promise capacity asserts calls) (contents-initial capacity default)
