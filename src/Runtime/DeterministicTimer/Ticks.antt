-- ===== src/Runtime/DeterministicTimer/Ticks.antt =====
-- deterministic_timer.hpp: a tick.
use fsmc.Common.{
  ℕ, suc, ◌+◌, ◌≡◌, refl, ap, ◌∙◌, sym, inl, inr, Bool, true, false, ◌&&◌, ◌||◌, not, List, [], ◌∷◌,
  Option, none, some, ◌==◌, if◌then◌else◌, Bool-cases, and_left, ◌≢◌, ◌⊎◌, arith, length, take, map,
  keep_if, ◌≤◌,
}
use fsmc.Runtime.DeterministicTimer.{
  TimerEntry, TimerManager, is_timer, expires, advance, sweep_entry, sweep, dispatch_expired, tick,
}
use fsmc.Runtime.DeterministicTimer.Entries.{find_timer, Unique, absent_split}

-- The timers that a tick lets expire, each once, in the order of the array.
abbrev pub expiring : ℕ → List TimerEntry → List ℕ
expiring delta_ms entries =
    map (λ (e : TimerEntry). e.timer_id)
      (keep_if (λ (e : TimerEntry). e.active && expires delta_ms e) entries)

sweep-expiring :
    (delta_ms : ℕ) (entries : List TimerEntry)
    → (sweep delta_ms entries).1 ≡ expiring delta_ms entries
unfolding sweep
sweep-expiring delta_ms [] = refl
sweep-expiring delta_ms (entry ∷ entries) =
    elim (Bool-cases (entry.active && expires delta_ms entry)) [
      | inl due_now ↦ rw due_now (ap (◌∷◌ entry.timer_id) (sweep-expiring delta_ms entries))
      | inr later ↦ rw later (sweep-expiring delta_ms entries)
    ]

sweep-length :
    (delta_ms : ℕ) (entries : List TimerEntry) → length (sweep delta_ms entries).0 ≡ length entries
unfolding sweep
sweep-length delta_ms [] = refl
sweep-length delta_ms (entry ∷ entries) = ap suc (sweep-length delta_ms entries)

-- Whether a number is in a list.
abbrev pub among : ℕ → List ℕ → Bool
among q [] = false
among q (x ∷ xs) = (x == q) || among q xs

among_skip :
    (b : Bool) (q x : ℕ) (xs : List ℕ)
    → (b && (x == q)) ≡ false
    → among q (if b then x ∷ xs else xs) ≡ among q xs
among_skip b q x xs h = ground (arith, h)

abbrev pub due : ℕ → Option TimerEntry → Bool
due delta_ms none = false
due delta_ms (some entry) = expires delta_ms entry

-- An active timer after a tick: one that expires goes on from the beginning of its interval if it is
-- periodic, and is gone if not.
pub advanced : ℕ → Option TimerEntry → Option TimerEntry
advanced delta_ms none = none
advanced delta_ms (some entry) =
    if expires delta_ms entry && not entry.periodic then none else some (advance delta_ms entry)

module _ (delta_ms : ℕ) where
  -- A timer that ends with this tick.
  abbrev ends : TimerEntry → Bool
  ends entry = expires delta_ms entry && not entry.periodic

  sweep_entry-timer_id :
      (entry : TimerEntry) → (sweep_entry delta_ms entry).timer_id ≡ entry.timer_id
  unfolding sweep_entry advance
  sweep_entry-timer_id entry = ground arith

  sweep_entry-active :
      (entry : TimerEntry)
      → (sweep_entry delta_ms entry).active ≡ (entry.active && not (ends entry))
  unfolding sweep_entry advance
  sweep_entry-active entry = ground arith

  is_timer-sweep_entry :
      (q : ℕ) (entry : TimerEntry)
      → is_timer q (sweep_entry delta_ms entry) ≡ (is_timer q entry && not (ends entry))
  is_timer-sweep_entry q entry =
      rw (sweep_entry-timer_id entry, sweep_entry-active entry) ground arith

  sweep_entry-advance :
      (entry : TimerEntry)
      → entry.active ≡ true
      → sweep_entry delta_ms entry ≡ advance delta_ms entry
  unfolding sweep_entry
  sweep_entry-advance entry h = rw h refl

  -- A timer that is not active before a tick is not active after it and does not expire.
  sweep_absent :
      (q : ℕ) (entries : List TimerEntry)
      → find_timer q entries ≡ none
      → (find_timer q (sweep delta_ms entries).0 ≡ none)
        × (among q (sweep delta_ms entries).1 ≡ false)
  unfolding sweep
  sweep_absent q [] h = (refl, refl)
  sweep_absent q (entry ∷ entries) h =
      let (miss, gone) = absent_split (is_timer q entry) entry (find_timer q entries) h in
      let (rest, no_more) = sweep_absent q entries gone in
      (rw (is_timer-sweep_entry q entry, miss, rest) refl, ground (arith, no_more, miss))

  sweep_found :
      (q : ℕ) (entry : TimerEntry) (entries : List TimerEntry)
      → is_timer q entry ≡ true
      → find_timer q entries ≡ none
      → (find_timer q (sweep delta_ms (entry ∷ entries)).0 ≡ advanced delta_ms (some entry))
        × (among q (sweep delta_ms (entry ∷ entries)).1 ≡ expires delta_ms entry)
  unfolding sweep advanced
  sweep_found q entry entries hit gone =
      let (rest, no_more) = sweep_absent q entries gone in
      let active : entry.active ≡ true = ground arith in
      (
        rw (is_timer-sweep_entry q entry, hit, sweep_entry-advance entry active, rest) ground arith,
        ground (arith, no_more, hit),
      )

  sweep-advanced :
      (q : ℕ) (entries : List TimerEntry)
      → Unique entries
      → (find_timer q (sweep delta_ms entries).0 ≡ advanced delta_ms (find_timer q entries))
        × (among q (sweep delta_ms entries).1 ≡ due delta_ms (find_timer q entries))
  unfolding sweep advanced
  sweep-advanced q [] u = (refl, refl)
  sweep-advanced q (entry ∷ entries) u = elim (Bool-cases (is_timer q entry)) [
    | inl hit ↦
        let same : entry.timer_id ≡ q = ground arith in
        let active : entry.active ≡ true = ground arith in
        let gone : find_timer q entries ≡ none = rw (← same) (u.0 active) in
        rw hit (sweep_found q entry entries hit gone)
    | inr miss ↦
        let (rest, expired) = sweep-advanced q entries u.1 in
        let not_here : ((entry.active && expires delta_ms entry) && (entry.timer_id == q)) ≡ false =
          ground (arith, miss) in
        rw (is_timer-sweep_entry q entry, miss)
          (
            rest,
            among_skip (entry.active && expires delta_ms entry) q entry.timer_id
                  (sweep delta_ms entries).1 not_here
                ∙ expired,
          )
  ]

  sweep-Unique : (entries : List TimerEntry) → Unique entries → Unique (sweep delta_ms entries).0
  unfolding sweep
  sweep-Unique [] u = tt
  sweep-Unique (entry ∷ entries) u = (
    λ active.
        let was_active : entry.active ≡ true =
          and_left entry.active _ (sym (sweep_entry-active entry) ∙ active) in
        rw (sweep_entry-timer_id entry) (sweep_absent entry.timer_id entries (u.0 was_active)).0,
    sweep-Unique entries u.1,
  )

module _ {S : Type 0} (manager : S → TimerManager) (on_expired : ℕ → S → S) where
  abbrev pub call_all : List ℕ → S → S
  call_all [] s = s
  call_all (timer_id ∷ expired) s = call_all expired (on_expired timer_id s)

  -- Each callback is made in the generation that the tick began in.
  abbrev pub InGeneration : ℕ → List ℕ → S → Type 0
  InGeneration start_gen [] s = Unit
  InGeneration start_gen (timer_id ∷ expired) s =
      ((manager s).generation ≡ start_gen) × InGeneration start_gen expired (on_expired timer_id s)

  pub record Dispatched (start_gen : ℕ) (expired : List ℕ) (s : S) (result : S × ℕ) : Type 0 where
    pub calls : result.0 ≡ call_all (take result.1 expired) s
    pub at_most : result.1 ≤ length expired
    pub in_generation : InGeneration start_gen (take result.1 expired) s
    pub stops : (result.1 ≡ length expired) ⊎ ((manager result.0).generation ≢ start_gen)

  dispatch_expired-Dispatched :
      (start_gen : ℕ) (expired : List ℕ) (s : S)
      → Dispatched start_gen expired s (dispatch_expired manager on_expired start_gen expired s)
  unfolding dispatch_expired
  dispatch_expired-Dispatched start_gen [] s = record {
    calls = refl;
    at_most = omega arith;
    in_generation = tt;
    stops = inl refl;
  }
  dispatch_expired-Dispatched start_gen (timer_id ∷ expired) s =
      elim (Bool-cases ((manager s).generation == start_gen)) [
        | inl same ↦
            let r = dispatch_expired-Dispatched start_gen expired (on_expired timer_id s) in
            let more : (n : ℕ) → n + 1 ≡ suc n = λ n. omega arith in
            let now : (manager s).generation ≡ start_gen = ground arith in
            rw (same, more)
              record {
                calls = r.calls;
                at_most = omega (arith, r.at_most);
                in_generation = (now, r.in_generation);
                stops = elim r.stops [ inl all ↦ inl (ap suc all) | inr over ↦ inr over ];
              }
        | inr other ↦ rw other record {
          calls = refl;
          at_most = omega arith;
          in_generation = tt;
          stops = inr (λ e. ground (arith, e, other));
        }
      ]

module _ {S : Type 0} (manager : S → TimerManager) (on_expired : ℕ → S → S)
    (put : TimerManager → S → S) (delta_ms : ℕ) (s : S) where
  -- What a tick promises.
  pub record Ticked (result : S × ℕ) : Type 0 where
    pub swept : List TimerEntry
    pub maps : (q : ℕ) → find_timer q swept ≡ advanced delta_ms (find_timer q (manager s).timers)
    pub expires_due :
        (q : ℕ)
        → among q (expiring delta_ms (manager s).timers)
          ≡ due delta_ms (find_timer q (manager s).timers)
    pub unique : Unique swept
    pub slots : length swept ≡ length (manager s).timers
    pub dispatched :
        Dispatched manager on_expired
          (manager s).generation
          (expiring delta_ms (manager s).timers)
          (put (record { timers = swept; generation = (manager s).generation }) s)
          result

  -- Where no timer has two active entries, a tick first advances every active timer by the time that
  -- passed and lets expire exactly those that have reached their interval then: a periodic one goes on
  -- with the rest of its interval, another is gone. Then it makes the callbacks of the expired timers,
  -- one for each, in the order of the array, and returns how many it made: each is made in the
  -- generation that the tick began in, and it stops short of the last only where the generation has
  -- changed. No timer gets a second active entry, and the array keeps its size.
  pub tick-Ticked : Unique (manager s).timers → Ticked (tick manager on_expired put delta_ms s)
  unfolding tick
  tick-Ticked u = record {
    swept = (sweep delta_ms (manager s).timers).0;
    maps = λ q. (sweep-advanced delta_ms q (manager s).timers u).0;
    expires_due = λ q.
        ap (among q) (sym (sweep-expiring delta_ms (manager s).timers))
        ∙ (sweep-advanced delta_ms q (manager s).timers u).1;
    unique = sweep-Unique delta_ms (manager s).timers u;
    slots = sweep-length delta_ms (manager s).timers;
    dispatched =
        rw⁻¹ (sweep-expiring delta_ms (manager s).timers)
          (dispatch_expired-Dispatched manager on_expired (manager s).generation _ _);
  }
