-- ===== src/Runtime/SpscRingBuffer/Counting.antt =====
-- spsc_ring_buffer.hpp: indices that wrap around, against counts that do not.
use native.Mathlib.Nat.{mod-add-mod, add-mod_right, mod-eq_of_lt, mod-lt}
use fsmc.Common.{
  ℕ, ◌+◌, ◌-◌, ◌%◌, ◌≤◌, ◌<◌, ◌≡◌, ap, ◌∙◌, sym, inl, inr, ltb, if◌then◌else◌, Bool-cases, arith,
}
use fsmc.Runtime.Ring.{add_mod}

-- The count `n` after the count `c`, on indices modulo `w`.
ahead :
    (w c n : ℕ)
    → n < w
    → c % w < w
    → (c + n) % w ≡ (if ltb (c % w + n) w then c % w + n else c % w + n - w)
ahead w c n h r = sym (mod-add-mod c w n) ∙ add_mod w (c % w) n r (omega arith)

-- Their difference is `n`.
difference : (w c n : ℕ) → n < w → c % w < w → ((c + n) % w + w - c % w) % w ≡ n
difference w c n h r = elim (Bool-cases (ltb (c % w + n) w)) [
  | inl low ↦
      let e : (c + n) % w ≡ c % w + n = ground (arith, ahead w c n h r) in
      let d : c % w + n + w - c % w ≡ n + w = omega arith in
      rw (e, d) (add-mod_right n w ∙ mod-eq_of_lt h)
  | inr high ↦
      let e : (c + n) % w ≡ c % w + n - w = ground (arith, ahead w c n h r) in
      let d : c % w + n - w + w - c % w ≡ n = ground arith in rw (e, d) (mod-eq_of_lt h)
]

-- The distance of two counts that are less than `w` apart.
pub distance : (w c p : ℕ) → 0 < w → c ≤ p → p - c < w → (p % w + w - c % w) % w ≡ p - c
distance w c p pos le h =
    let e : p ≡ c + (p - c) = omega arith in
    ap (λ n. (n % w + w - c % w) % w) e ∙ difference w c (p - c) h (mod-lt c pos)

-- Two such counts have one index only if they are the same.
pub same_index : (w c p : ℕ) → 0 < w → c ≤ p → p - c < w → c % w ≡ p % w → c ≡ p
same_index w c p pos le h same =
    let r = mod-lt c pos in
    let d = distance w c p pos le h in
    let e : p % w + w - c % w ≡ 0 + w = omega arith in
    let zero_apart : (p % w + w - c % w) % w ≡ 0 = rw e (add-mod_right 0 w ∙ mod-eq_of_lt pos) in
    omega arith

pub next_index : (w n : ℕ) → (n % w + 1) % w ≡ (n + 1) % w
next_index w n = mod-add-mod n w 1
