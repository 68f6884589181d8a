-- ===== src/Runtime/SpscRingBuffer/Moves.antt =====
-- spsc_ring_buffer.hpp: every move of a thread keeps the invariant.
use native.Mathlib.Nat.{mod-mod_of_dvd, mod-lt}
use Prim.Native.Nat.{◌∣◌}
use fsmc.Common.{
  ℕ, suc, ◌+◌, ◌-◌, ◌%◌, ◌^◌, ◌≤◌, ◌<◌, ◌≡◌, refl, ap, ◌∙◌, sym, inl, inr, false, ◌==◌, leb, ltb,
  List, [], ◌∷◌, ◌++◌, length, length-set, length-replicate, set, get_or-set_self, get_or-set_ne,
  take, Bool-cases, arith,
}
use fsmc.Runtime.SpscRingBuffer.{
  SpscRingBuffer, Producer, idle, has_head, has_both, constructed, Consumer, waiting, has_tail,
  has_ends, moved, System, minus, get_slot, initial, emplace_step, pop_step, Move, produces,
  consumes, schedule,
}
use fsmc.Runtime.SpscRingBuffer.Counting.{distance, same_index, next_index}
use fsmc.Runtime.SpscRingBuffer.Interleaving.{
  get_or-append, get_or_end, take-append, take_next, longer, Holds, ProducerKnows, ConsumerKnows,
  Inv, after_push, after_pop,
}

-- The elements popped are the first ones pushed, and those left are no more than the capacity.
pub record Fifo {A : Type 0} (capacity : ℕ) (s : System A) : Type 0 where
  pub in_order : s.popped ≡ take (length s.popped) s.pushed
  pub none_extra : length s.popped ≤ length s.pushed
  pub fits : length s.pushed ≤ length s.popped + capacity

module _ {A : Type 0} (capacity : ℕ) (default : A) (divides : capacity ∣ 2 ^ 64)
    (positive : 0 < capacity) (narrow : capacity < 2 ^ 64) where
  abbrev S : Type 0
  S = System A

  slot_of : (n : ℕ) → get_slot capacity default (n % 2 ^ 64) ≡ n % capacity
  unfolding get_slot
  slot_of n = mod-mod_of_dvd capacity n divides

  constructed-Holds :
      (b : SpscRingBuffer A) (pushed popped : List A) (x : A)
      → Holds capacity default b pushed popped
      → length pushed < length popped + capacity
      → Holds capacity default
          (record b { storage = set b.storage (length pushed % capacity) x })
          pushed
          popped
  constructed-Holds b pushed popped x h room = record {
    head_at = h.head_at;
    tail_at = h.tail_at;
    slots = length-set b.storage (length pushed % capacity) x ∙ h.slots;
    order = h.order;
    bound = h.bound;
    stored = λ i lo hi.
        get_or-set_ne b.storage (length pushed % capacity) (i % capacity) x default (λ same.
          let e =
            same_index capacity i (length pushed) positive (omega arith) (omega arith) (sym same) in
          absurd (omega arith))
        ∙ h.stored i lo hi;
    fifo = h.fifo;
  }

  emplace_step-Inv :
      (item : A) (p : Producer A) (s : System A)
      → Holds capacity default s.buffer s.pushed s.popped
      → ProducerKnows capacity default p s.buffer s.pushed s.popped
      → ConsumerKnows capacity default s.consumer s.pushed s.popped
      → Inv capacity default (emplace_step capacity default item p s)
  unfolding emplace_step
  emplace_step-Inv item idle s h k c = record {
    holds = h;
    producer_knows = h.head_at;
    consumer_knows = c;
  }
  emplace_step-Inv item (has_head x head) s h k c = record {
    holds = h;
    producer_knows = (k, (length s.popped, h.tail_at, omega arith, h.bound));
    consumer_knows = c;
  }
  emplace_step-Inv item (has_both x head tail) s h (at, (seen, t, lo, hi)) c =
      elim (Bool-cases (leb capacity (minus head tail))) [
        | inl is_full ↦ rw is_full record { holds = h; producer_knows = tt; consumer_knows = c }
        | inr room ↦
            let d =
              distance (2 ^ 64) seen (length s.pushed) (omega arith) (omega (arith, h.order))
                (omega arith) in
            let apart : minus head tail ≡ length s.pushed - seen = rw (at, t) d in
            let below : length s.pushed < length s.popped + capacity = ground (arith, h.order) in
            let slot : get_slot capacity default head ≡ length s.pushed % capacity =
              ap (get_slot capacity default) at ∙ slot_of (length s.pushed) in
            let inside = mod-lt (length s.pushed) positive in
            rw (room, slot)
              record {
                holds = constructed-Holds s.buffer s.pushed s.popped x h below;
                producer_knows = (
                  at,
                  below,
                  get_or-set_self s.buffer.storage (length s.pushed % capacity) x default
                      (omega (arith, h.slots)),
                );
                consumer_knows = c;
              }
      ]
  emplace_step-Inv item (constructed x head) s h (at, below, stored) c =
      let n = longer s.pushed x in
      record {
        holds = record {
          head_at =
              ap (λ i. (i + 1) % 2 ^ 64) at
              ∙ (next_index (2 ^ 64) (length s.pushed) ∙ ap (λ i. i % 2 ^ 64) (sym n));
          tail_at = h.tail_at;
          slots = h.slots;
          order = omega (arith, h.order);
          bound = omega arith;
          stored = λ i lo hi. elim (Bool-cases (ltb i (length s.pushed))) [
            | inl old ↦
                h.stored i lo (ground arith)
                ∙ sym (get_or-append s.pushed (x ∷ []) i default (ground arith))
            | inr new ↦
                let here : i ≡ length s.pushed = ground arith in
                rw here (stored ∙ sym (get_or_end s.pushed x default))
          ];
          fifo = h.fifo ∙ sym (take-append (length s.popped) s.pushed (x ∷ []) h.order);
        };
        producer_knows = tt;
        consumer_knows = after_push capacity default s.consumer s.pushed s.popped x c;
      }

  apart :
      (tail head c seen : ℕ)
      → tail ≡ c % 2 ^ 64
      → head ≡ seen % 2 ^ 64
      → (tail == head) ≡ false
      → c ≤ seen
      → c < seen
  apart tail head c seen t h other le = elim (Bool-cases (ltb c seen)) [
    | inl less ↦ ground arith
    | inr not_less ↦
        let same : c ≡ seen = ground arith in
        let met : tail ≡ head = t ∙ (ap (λ n. n % 2 ^ 64) same ∙ sym h) in
        absurd (ground (arith, met, other))
  ]

  pop_step-Inv :
      (c : Consumer A) (s : System A)
      → Holds capacity default s.buffer s.pushed s.popped
      → ProducerKnows capacity default s.producer s.buffer s.pushed s.popped
      → ConsumerKnows capacity default c s.pushed s.popped
      → Inv capacity default (pop_step capacity default c s)
  unfolding pop_step
  pop_step-Inv waiting s h p k = record {
    holds = h;
    producer_knows = p;
    consumer_knows = h.tail_at;
  }
  pop_step-Inv (has_tail tail) s h p k = record {
    holds = h;
    producer_knows = p;
    consumer_knows = (k, (length s.pushed, h.head_at, h.order, omega arith));
  }
  pop_step-Inv (has_ends tail head) s h p (at, (seen, e, lo, hi)) =
      elim (Bool-cases (tail == head)) [
        | inl nothing ↦ rw nothing record { holds = h; producer_knows = p; consumer_knows = tt }
        | inr something ↦
            let some_left = apart tail head (length s.popped) seen at e something lo in
            let below : length s.popped < length s.pushed = omega arith in
            let slot : get_slot capacity default tail ≡ length s.popped % capacity =
              ap (get_slot capacity default) at ∙ slot_of (length s.popped) in
            rw (something, slot)
              record {
                holds = h;
                producer_knows = p;
                consumer_knows = (at, below, sym (h.stored (length s.popped) (omega arith) below));
              }
      ]
  pop_step-Inv (moved x tail) s h p (at, below, found) =
      let n = longer s.popped x in
      let next : length (s.popped ++ x ∷ []) ≡ suc (length s.popped) = omega arith in
      let after = record s.buffer { tail = (tail + 1) % 2 ^ 64 } in
      record {
        holds = record {
          head_at = h.head_at;
          tail_at =
              ap (λ i. (i + 1) % 2 ^ 64) at
              ∙ (next_index (2 ^ 64) (length s.popped) ∙ ap (λ i. i % 2 ^ 64) (sym n));
          slots = h.slots;
          order = omega arith;
          bound = omega (arith, h.bound);
          stored = λ i lo hi. h.stored i (omega arith) hi;
          fifo =
              ap (λ xs. xs ++ x ∷ []) h.fifo
              ∙ (ap (λ y. take (length s.popped) s.pushed ++ y ∷ []) (sym found)
                  ∙ (sym (take_next (length s.popped) s.pushed default below)
                      ∙ ap (λ m. take m s.pushed) (sym next)));
        };
        producer_knows =
            after_pop capacity default s.producer s.buffer after s.pushed s.popped x refl p;
        consumer_knows = tt;
      }

  schedule-Inv :
      (moves : List (Move A)) (s : System A)
      → Inv capacity default s
      → Inv capacity default (schedule capacity default moves s)
  unfolding schedule
  schedule-Inv [] s v = v
  schedule-Inv (produces item ∷ moves) s v =
      schedule-Inv moves _
        (emplace_step-Inv item s.producer s v.holds v.producer_knows v.consumer_knows)
  schedule-Inv (consumes ∷ moves) s v =
      schedule-Inv moves _ (pop_step-Inv s.consumer s v.holds v.producer_knows v.consumer_knows)

  initial-Inv : Inv capacity default (initial capacity default)
  unfolding initial
  initial-Inv = record {
    holds = record {
      head_at = refl;
      tail_at = refl;
      slots = length-replicate capacity default;
      order = omega arith;
      bound = omega arith;
      stored = λ i lo hi. absurd (omega arith);
      fifo = refl;
    };
    producer_knows = tt;
    consumer_knows = tt;
  }

  -- Under every interleaving of one producer and one consumer, on a positive capacity that divides
  -- 2 ^ 64 and is less: the elements popped are the first ones pushed, in their order, none lost and
  -- none twice, and never are more elements in the buffer than its capacity; also where the indices
  -- wrap around.
  pub schedule-Fifo :
      (moves : List (Move A))
      → Fifo capacity (schedule capacity default moves (initial capacity default))
  schedule-Fifo moves =
      let v = schedule-Inv moves (initial capacity default) initial-Inv in
      record { in_order = v.holds.fifo; none_extra = v.holds.order; fits = v.holds.bound }
