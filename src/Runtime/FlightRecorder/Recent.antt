-- ===== src/Runtime/FlightRecorder/Recent.antt =====
-- flight_recorder.hpp: what a reader finds after any number of recordings.
use mathlib.Core.Path.{subst}
use mathlib.Core.List.{tail, append-nil, append_assoc}
use fsmc.Common.{
  ℕ, zero, suc, ◌-◌, ◌≤◌, ◌<◌, ◌≡◌, refl, ap, ◌∙◌, sym, inl, inr, List, [], ◌∷◌, ◌++◌, some, ◌==◌,
  nil_of_length, length, length-append, drop, get_elem?, Bool-cases, arith,
}
use fsmc.Runtime.FlightRecorder.{TraceEntry, TraceBuffer, initial, record_entry, at, last_entry}
use fsmc.Runtime.FlightRecorder.Trail.{
  Filled, entries, remember, remember_room, remember_full, entries-last_entry, entries-at,
  entries-initial, record_entry-Filled, initial-Filled, entries-record_entry, length-entries,
}

module _ {ℓ} {A : Type ℓ} where
  length-drop : (n : ℕ) (xs : List A) → length (drop n xs) ≡ length xs - n
  length-drop zero xs = omega arith
  length-drop (suc n) [] = omega arith
  length-drop (suc n) (x ∷ xs) = omega (arith, length-drop n xs)

  tail-drop : (n : ℕ) (xs : List A) → tail (drop n xs) ≡ drop (suc n) xs
  tail-drop zero [] = refl
  tail-drop zero (x ∷ xs) = refl
  tail-drop (suc n) [] = refl
  tail-drop (suc n) (x ∷ xs) = tail-drop n xs

  drop-append : (n : ℕ) (xs ys : List A) → n ≤ length xs → drop n (xs ++ ys) ≡ drop n xs ++ ys
  drop-append zero xs ys h = refl
  drop-append (suc n) [] ys h = absurd (omega arith)
  drop-append (suc n) (x ∷ xs) ys h = drop-append n xs ys (omega arith)

  -- The last elements of a list, at most `n` of them.
  pub keep_last : ℕ → List A → List A
  keep_last n xs = drop (length xs - n) xs

  drop_nil : (n : ℕ) → drop {A = A} n [] ≡ []
  drop_nil zero = refl
  drop_nil (suc n) = refl

  keep_last_nil : (n : ℕ) → keep_last n [] ≡ []
  unfolding keep_last
  keep_last_nil n = drop_nil _

module _ (capacity : ℕ) where
  remember-keep_last :
      (p : List TraceEntry) (e : TraceEntry)
      → 0 < capacity
      → remember capacity (keep_last capacity p) e ≡ keep_last capacity (p ++ e ∷ [])
  unfolding keep_last
  remember-keep_last p e h =
      let kept = length-drop (length p - capacity) p in
      let longer = length-append p (e ∷ []) in
      elim (Bool-cases (length (drop (length p - capacity) p) == capacity)) [
        | inl is_full ↦
            let next : length (p ++ e ∷ []) - capacity ≡ suc (length p - capacity) = ground arith in
            remember_full capacity (drop (length p - capacity) p) e is_full
            ∙ (ap (λ xs. xs ++ e ∷ []) (tail-drop (length p - capacity) p)
                ∙ (sym (drop-append (suc (length p - capacity)) p (e ∷ []) (ground arith))
                    ∙ ap (λ n. drop n (p ++ e ∷ [])) (sym next)))
        | inr room ↦
            let next : length (p ++ e ∷ []) - capacity ≡ length p - capacity = ground arith in
            remember_room capacity (drop (length p - capacity) p) e room
            ∙ (sym (drop-append (length p - capacity) p (e ∷ []) (omega arith))
                ∙ ap (λ n. drop n (p ++ e ∷ [])) (sym next))
      ]

  pub record_all : List TraceEntry → TraceBuffer → TraceBuffer
  record_all [] b = b
  record_all (e ∷ es) b = record_all es (record_entry capacity b e)

  entries-record_all :
      (p es : List TraceEntry) (b : TraceBuffer)
      → 0 < capacity
      → Filled capacity b
      → entries capacity b ≡ keep_last capacity p
      → Filled capacity (record_all es b)
        × (entries capacity (record_all es b) ≡ keep_last capacity (p ++ es))
  unfolding record_all
  entries-record_all p [] b h f e = (f, e ∙ ap (keep_last capacity) (sym (append-nil p)))
  entries-record_all p (x ∷ es) b h f e =
      let step =
        entries-record_entry capacity b x h f
        ∙ (ap (λ xs. remember capacity xs x) e ∙ remember-keep_last p x h) in
      let (filled, rest) =
        entries-record_all (p ++ x ∷ []) es (record_entry capacity b x) h
          (record_entry-Filled capacity b x h f) step in
      (filled, rest ∙ ap (keep_last capacity) (append_assoc p (x ∷ []) es))

  -- What a reader of the buffer finds.
  pub record Shows (b : TraceBuffer) (shown : List TraceEntry) : Type 0 where
    pub size : b.count ≡ length shown
    pub entry_at :
        (index : ℕ) → index < length shown → get_elem? shown index ≡ some (at capacity b index)
    pub last : last_entry capacity b ≡ get_elem? shown (length shown - 1)

  Shows-entries : (b : TraceBuffer) → Filled capacity b → Shows b (entries capacity b)
  unfolding last_entry
  Shows-entries b f =
      let n = length-entries capacity b in
      record {
        size = sym n;
        entry_at = λ index k. entries-at capacity b index f (omega arith);
        last = elim (Bool-cases (b.count == 0)) [
          | inl nothing ↦
              let none_left : length (entries capacity b) ≡ 0 = ground arith in
              rw (nothing, nil_of_length (entries capacity b) none_left) refl
          | inr something ↦ rw n (
              entries-last_entry capacity b f (ground arith)
              ∙ sym (entries-at capacity b (b.count - 1) f (ground arith)))
        ];
      }

  -- After any recordings, a buffer of a positive capacity holds the last of them, as many as it has
  -- places for, from the oldest to the newest.
  pub record_all-Shows :
      (es : List TraceEntry)
      → 0 < capacity
      → Shows (record_all es (initial capacity)) (keep_last capacity es)
  record_all-Shows es h =
      let (filled, e) =
        entries-record_all [] es (initial capacity) h (initial-Filled capacity h)
          (entries-initial capacity ∙ sym (keep_last_nil capacity)) in
      subst (Shows (record_all es (initial capacity))) e
        (Shows-entries (record_all es (initial capacity)) filled)
