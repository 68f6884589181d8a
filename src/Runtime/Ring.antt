-- ===== src/Runtime/Ring.antt =====
-- The part of an array that a circular buffer holds: `n` slots from `head` on, with wrap-around.
-- static_ring_buffer.hpp, flight_recorder.hpp and snapshot_recorder.hpp index their arrays so.
use mathlib.Core.Path.{ap₂}
use native.Mathlib.Nat.{mod-eq_of_lt, mod-eq-sub-mod}
use fsmc.Common.{
  ◌∙◌, inl, inr, Bool-cases, ℕ, zero, suc, ◌+◌, ◌-◌, ◌%◌, ◌≤◌, ◌<◌, ◌≡◌, refl, ap, ◌≢◌, List, [],
  ◌∷◌, ◌++◌, arith, ltb, leb, if◌then◌else◌, length, get_or, get_elem?, some, set, get_or-set_self,
  get_or-set_ne,
}

-- `(i + 1) % capacity` and `(i + n) % capacity` without a division.
pub succ_mod :
    (capacity i : ℕ)
    → i < capacity
    → (i + 1) % capacity ≡ (if ltb (i + 1) capacity then i + 1 else 0)
succ_mod capacity i h = grind arith

pub add_mod :
    (capacity i n : ℕ)
    → i < capacity
    → n ≤ capacity
    → (i + n) % capacity ≡ (if ltb (i + n) capacity then i + n else i + n - capacity)
add_mod capacity i n h k = elim (Bool-cases (ltb (i + n) capacity)) [
  | inl low ↦ rw low (mod-eq_of_lt (ground arith))
  | inr high ↦ rw high (mod-eq-sub-mod (ground arith) ∙ mod-eq_of_lt (ground arith))
]

-- The steps from slot `i` to slot `t`.
abbrev pub ahead : ℕ → ℕ → ℕ → ℕ
ahead capacity i t = if leb i t then t - i else t + capacity - i

-- What one step of the head leaves of the way to `t`.
ahead_step :
    (capacity head n t : ℕ)
    → head < capacity
    → t < capacity
    → suc n ≤ ahead capacity head t
    → (t ≢ head)
      × ((head + 1) % capacity < capacity)
      × (n ≤ ahead capacity ((head + 1) % capacity) t)
ahead_step capacity head n t hh ht hn = ground (arith, succ_mod capacity head hh)

add_mod_step :
    (capacity head n : ℕ)
    → head < capacity
    → suc n < capacity
    → ((head + 1) % capacity < capacity)
      × (((head + 1) % capacity + n) % capacity ≡ (head + suc n) % capacity)
add_mod_step capacity head n hh hn = ground (
  arith,
  succ_mod capacity head hh,
  add_mod capacity head (suc n) hh,
  add_mod capacity ((head + 1) % capacity) n,
)

add_mod_ahead :
    (capacity head n : ℕ)
    → head < capacity
    → n < capacity
    → ((head + n) % capacity < capacity) × (n ≤ ahead capacity head ((head + n) % capacity))
add_mod_ahead capacity head n hh hn = ground (arith, add_mod capacity head n hh)

module _ {ℓ} {A : Type ℓ} (capacity : ℕ) (default : A) where
  unfoldable pub window : List A → ℕ → ℕ → List A
  window buffer head zero = []
  window buffer head (suc n) = get_or buffer head default ∷ window buffer ((head + 1) % capacity) n

  pub length-window : (buffer : List A) (head n : ℕ) → length (window buffer head n) ≡ n
  unfolding window
  length-window buffer head zero = refl
  length-window buffer head (suc n) = ap suc (length-window buffer ((head + 1) % capacity) n)

  -- A write ahead of the window does not show.
  pub window-set :
      (buffer : List A) (head n t : ℕ) (v : A)
      → head < capacity
      → t < capacity
      → n ≤ ahead capacity head t
      → window (set buffer t v) head n ≡ window buffer head n
  unfolding window
  window-set buffer head zero t v hh ht hn = refl
  window-set buffer head (suc n) t v hh ht hn =
      let (away, inside, rest) = ahead_step capacity head n t hh ht hn in
      ap₂ ◌∷◌ (get_or-set_ne buffer t head v default away)
        (window-set buffer ((head + 1) % capacity) n t v inside ht rest)

  -- The last slot of a window.
  pub window_last :
      (buffer : List A) (head n : ℕ)
      → head < capacity
      → n < capacity
      → window buffer head (suc n)
        ≡ window buffer head n ++ get_or buffer ((head + n) % capacity) default ∷ []
  unfolding window
  window_last buffer head zero hh hn =
      let here : (head + 0) % capacity ≡ head = ground (arith, add_mod capacity head 0 hh) in
      rw here
  window_last buffer head (suc n) hh hn =
      let (inside, same) = add_mod_step capacity head n hh hn in
      ap (◌∷◌ (get_or buffer head default))
        (rw (← same) (window_last buffer ((head + 1) % capacity) n inside (omega arith)))

  -- A write into the first free slot appends to the window.
  pub window-set_end :
      (buffer : List A) (head n t : ℕ) (v : A)
      → length buffer ≡ capacity
      → head < capacity
      → n < capacity
      → t ≡ (head + n) % capacity
      → window (set buffer t v) head (n + 1) ≡ window buffer head n ++ v ∷ []
  window-set_end buffer head n t v hl hh hn ht =
      let (inside, far) = add_mod_ahead capacity head n hh hn in
      let more : n + 1 ≡ suc n = omega arith in
      rw (more, ht, window_last (set buffer ((head + n) % capacity) v) head n hh hn)
        (ap₂ (λ xs x. xs ++ x ∷ []) (window-set buffer head n _ v hh inside far)
          (get_or-set_self buffer _ v default (omega arith)))

  -- The slot at the head comes first.
  pub window_first :
      (buffer : List A) (head n : ℕ)
      → 0 < n
      → window buffer head n
        ≡ get_or buffer head default ∷ window buffer ((head + 1) % capacity) (n - 1)
  unfolding window
  window_first buffer head zero h = elim h [ ]
  window_first buffer head (suc n) h = let less : suc n - 1 ≡ n = omega arith in rw less

  pub window_none : (buffer : List A) (head : ℕ) → window buffer head 0 ≡ []
  unfolding window
  window_none buffer head = refl

  -- The slot that is `i` places into a window.
  pub get_elem?-window :
      (buffer : List A) (head n i : ℕ)
      → head < capacity
      → n ≤ capacity
      → i < n
      → get_elem? (window buffer head n) i ≡ some (get_or buffer ((head + i) % capacity) default)
  unfolding window
  get_elem?-window buffer head zero i hh hn hi = absurd (omega arith)
  get_elem?-window buffer head (suc n) zero hh hn hi =
      let here : (head + 0) % capacity ≡ head = ground (arith, add_mod capacity head 0 hh) in
      rw here refl
  get_elem?-window buffer head (suc n) (suc i) hh hn hi =
      let (inside, same) = add_mod_step capacity head i hh (omega arith) in
      rw (← same)
        (get_elem?-window buffer ((head + 1) % capacity) n i inside (omega arith) (omega arith))
