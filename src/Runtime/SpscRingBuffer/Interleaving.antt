-- ===== src/Runtime/SpscRingBuffer/Interleaving.antt =====
-- spsc_ring_buffer.hpp: what holds at every moment, whichever thread moves when.
use fsmc.Common.{
  ℕ, zero, suc, ◌+◌, ◌%◌, ◌^◌, ◌≤◌, ◌<◌, ◌≡◌, refl, ap, ◌∙◌, List, [], ◌∷◌, ◌++◌, length,
  length-append, get_or, take, arith,
}
use fsmc.Runtime.SpscRingBuffer.{
  SpscRingBuffer, Producer, idle, has_head, has_both, constructed, Consumer, waiting, has_tail,
  has_ends, moved, System,
}

module _ {ℓ} {A : Type ℓ} where
  pub get_or-append :
      (xs ys : List A) (i : ℕ) (d : A) → i < length xs → get_or (xs ++ ys) i d ≡ get_or xs i d
  get_or-append [] ys i d h = absurd (omega arith)
  get_or-append (x ∷ xs) ys zero d h = refl
  get_or-append (x ∷ xs) ys (suc i) d h = get_or-append xs ys i d (omega arith)

  pub get_or_end : (xs : List A) (x d : A) → get_or (xs ++ x ∷ []) (length xs) d ≡ x
  get_or_end [] x d = refl
  get_or_end (y ∷ xs) x d = get_or_end xs x d

  pub take-append : (n : ℕ) (xs ys : List A) → n ≤ length xs → take n (xs ++ ys) ≡ take n xs
  take-append zero xs ys h = refl
  take-append (suc n) [] ys h = absurd (omega arith)
  take-append (suc n) (x ∷ xs) ys h = ap (◌∷◌ x) (take-append n xs ys (omega arith))

  pub take_next :
      (n : ℕ) (xs : List A) (d : A)
      → n < length xs
      → take (suc n) xs ≡ take n xs ++ get_or xs n d ∷ []
  take_next n [] d h = absurd (omega arith)
  take_next zero (x ∷ xs) d h = refl
  take_next (suc n) (x ∷ xs) d h = ap (◌∷◌ x) (take_next n xs d (omega arith))

  pub longer : (xs : List A) (x : A) → length (xs ++ x ∷ []) ≡ length xs + 1
  longer xs x = omega (arith, length-append xs (x ∷ []))

module _ {A : Type 0} (capacity : ℕ) (default : A) where
  -- The elements in the storage, by the counts of those pushed and popped so far.
  pub record Holds (b : SpscRingBuffer A) (pushed popped : List A) : Type 0 where
    pub head_at : b.head ≡ length pushed % 2 ^ 64
    pub tail_at : b.tail ≡ length popped % 2 ^ 64
    pub slots : length b.storage ≡ capacity
    pub order : length popped ≤ length pushed
    pub bound : length pushed ≤ length popped + capacity
    pub stored :
        (i : ℕ)
        → length popped ≤ i
        → i < length pushed
        → get_or b.storage (i % capacity) default ≡ get_or pushed i default
    pub fifo : popped ≡ take (length popped) pushed

  -- What the producer knows: the tail that it loaded is that of an earlier count.
  abbrev pub ProducerKnows : Producer A → SpscRingBuffer A → List A → List A → Type 0
  ProducerKnows idle b pushed popped = Unit
  ProducerKnows (has_head x head) b pushed popped = head ≡ length pushed % 2 ^ 64
  ProducerKnows (has_both x head tail) b pushed popped =
      (head ≡ length pushed % 2 ^ 64)
      × ((seen : ℕ) × (tail ≡ seen % 2 ^ 64)
          × (seen ≤ length popped)
          × (length pushed ≤ seen + capacity))
  ProducerKnows (constructed x head) b pushed popped =
      (head ≡ length pushed % 2 ^ 64)
      × (length pushed < length popped + capacity)
      × (get_or b.storage (length pushed % capacity) default ≡ x)

  -- What the consumer knows: the head that it loaded is that of an earlier count.
  abbrev pub ConsumerKnows : Consumer A → List A → List A → Type 0
  ConsumerKnows waiting pushed popped = Unit
  ConsumerKnows (has_tail tail) pushed popped = tail ≡ length popped % 2 ^ 64
  ConsumerKnows (has_ends tail head) pushed popped =
      (tail ≡ length popped % 2 ^ 64)
      × ((seen : ℕ) × (head ≡ seen % 2 ^ 64) × (length popped ≤ seen) × (seen ≤ length pushed))
  ConsumerKnows (moved x tail) pushed popped =
      (tail ≡ length popped % 2 ^ 64)
      × (length popped < length pushed)
      × (get_or pushed (length popped) default ≡ x)

  pub record Inv (s : System A) : Type 0 where
    pub holds : Holds s.buffer s.pushed s.popped
    pub producer_knows : ProducerKnows s.producer s.buffer s.pushed s.popped
    pub consumer_knows : ConsumerKnows s.consumer s.pushed s.popped

  -- What one thread knows stays true when the other one finishes an operation.
  pub after_push :
      (c : Consumer A) (pushed popped : List A) (x : A)
      → ConsumerKnows c pushed popped
      → ConsumerKnows c (pushed ++ x ∷ []) popped
  after_push waiting pushed popped x k = tt
  after_push (has_tail tail) pushed popped x k = k
  after_push (has_ends tail head) pushed popped x (t, (seen, e, lo, hi)) =
      let n = longer pushed x in (t, (seen, e, lo, omega arith))
  after_push (moved y tail) pushed popped x (t, lt, e) =
      let n = longer pushed x in
      (t, omega arith, get_or-append pushed (x ∷ []) (length popped) default lt ∙ e)

  pub after_pop :
      (p : Producer A) (b b' : SpscRingBuffer A) (pushed popped : List A) (x : A)
      → b'.storage ≡ b.storage
      → ProducerKnows p b pushed popped
      → ProducerKnows p b' pushed (popped ++ x ∷ [])
  after_pop idle b b' pushed popped x e k = tt
  after_pop (has_head y head) b b' pushed popped x e k = k
  after_pop (has_both y head tail) b b' pushed popped x e (h, (seen, t, lo, hi)) =
      let n = longer popped x in (h, (seen, t, omega arith, hi))
  after_pop (constructed y head) b b' pushed popped x e (h, lt, at) =
      let n = longer popped x in (h, omega arith, rw e at)
