-- ===== src/Middleend/EventQueueBound/Capacity.antt =====
-- src/middleend/analysis/event_queue_bound_pass.cpp: the capacity is a power of two that is enough.
use native.Mathlib.Nat.{mod-eq_of_lt, pow-le-pow_right}
use fsmc.Common.{
  ℕ, zero, suc, ◌+◌, ◌*◌, ◌%◌, ◌^◌, ◌≤◌, ◌<◌, ◌≡◌, refl, ap, ◌∙◌, sym, inl, inr, ◌⊎◌, false, Option,
  some, ltb, Bool-cases, arith,
}
use fsmc.Middleend.EventQueueBound.{grow}

power_step : (k : ℕ) → 2 ^ suc k ≡ 2 ^ k * 2
power_step k = omega arith

power_le : (k n : ℕ) → k ≤ n → 2 ^ k ≤ 2 ^ n
power_le k n h = pow-le-pow_right {n = 2} (omega arith) h

-- What the loop comes to from a power of two on.
pub record Grown (start bound : ℕ) (result : Option ℕ) : Type 0 where
  pub exponent : ℕ
  pub returns : result ≡ some (2 ^ exponent)
  pub narrow : exponent ≤ 63
  pub enough : bound ≤ 2 ^ exponent
  pub tight : (2 ^ exponent ≡ start) ⊎ (2 ^ exponent < 2 * bound)

pub grow-Grown :
    (fuel k bound : ℕ)
    → k + fuel ≡ 63
    → bound ≤ 2 ^ 63
    → Grown (2 ^ k) bound (grow fuel (2 ^ k) bound)
unfolding grow
grow-Grown zero k bound e h =
    let last : k ≡ 63 = omega arith in
    let reached : ltb (2 ^ k) bound ≡ false = rw last (ground (arith, h)) in
    rw reached record {
      exponent = k;
      returns = refl;
      narrow = omega arith;
      enough = rw last h;
      tight = inl refl;
    }
grow-Grown (suc fuel) k bound e h = elim (Bool-cases (ltb (2 ^ k) bound)) [
  | inr reached ↦ rw reached record {
    exponent = k;
    returns = refl;
    narrow = omega arith;
    enough = ground arith;
    tight = inl refl;
  }
  | inl short ↦
      let next = power_step k in
      let fits = power_le (suc k) 63 (omega arith) in
      let top : 2 ^ 63 < 2 ^ 64 = omega arith in
      let below : 2 ^ suc k < 2 ^ 64 = omega arith in
      let doubled : 2 ^ k * 2 % 2 ^ 64 ≡ 2 ^ suc k =
        ap (λ x. x % 2 ^ 64) (sym next) ∙ mod-eq_of_lt below in
      let r = grow-Grown fuel (suc k) bound (omega arith) h in
      rw (short, doubled)
        record {
          exponent = r.exponent;
          returns = r.returns;
          narrow = r.narrow;
          enough = r.enough;
          tight = elim r.tight [
            | inl same ↦ let lt : 2 ^ k < bound = ground arith in inr (omega arith)
            | inr less ↦ inr less
          ];
        }
]
