-- ===== src/Runtime/DeterministicTimer/Start.antt =====
-- deterministic_timer.hpp: starting a timer.
use fsmc.Common.{
  ℕ, ◌≡◌, refl, ap, ◌∙◌, inl, inr, Bool, true, false, ◌||◌, List, Option, none, some, ◌==◌,
  if◌then◌else◌, Bool-cases, arith,
}
use fsmc.Runtime.DeterministicTimer.{
  TimerEntry, is_timer, settle, occupy, start_or_occupy, start_timer, is_timer_active,
}
use fsmc.Runtime.DeterministicTimer.Entries.{
  find_timer, Unique, is_timer_active-find, has_free, Update, update_first-Update, Occupation,
  update_first-Occupation,
}

-- The map after a call, for the timer of the call and for the others.
abbrev pub Maps : ℕ → Option TimerEntry → List TimerEntry → List TimerEntry → Type 0
Maps timer_id entry entries changed =
    (q : ℕ) → find_timer q changed ≡ (if timer_id == q then entry else find_timer q entries)

by_id :
    (timer_id : ℕ) (entry : Option TimerEntry) (entries changed : List TimerEntry)
    → find_timer timer_id changed ≡ entry
    → ((q : ℕ) → (timer_id == q) ≡ false → find_timer q changed ≡ find_timer q entries)
    → Maps timer_id entry entries changed
by_id timer_id entry entries changed now others q = elim (Bool-cases (timer_id == q)) [
  | inl same ↦ let e : timer_id ≡ q = ground arith in rw (same, ← e) now
  | inr other ↦ rw other (others q other)
]

-- What start_timer promises.
pub record Started (timer_id duration_ms : ℕ) (periodic : Bool) (entries : List TimerEntry)
    (result : List TimerEntry × Bool) : Type 0 where
  pub done : result.1 ≡ (is_timer_active timer_id entries || has_free entries)
  pub maps :
      result.1 ≡ true
      → Maps timer_id
          (some (record {
            timer_id = timer_id;
            interval_ms = duration_ms;
            elapsed_ms = 0;
            periodic = periodic;
            active = true;
          }))
          entries
          result.0
  pub refuses : result.1 ≡ false → result.0 ≡ entries
  pub unique : Unique entries → Unique result.0

module _ (timer_id duration_ms : ℕ) (periodic : Bool) where
  abbrev armed_now : TimerEntry
  armed_now = record {
    timer_id = timer_id;
    interval_ms = duration_ms;
    elapsed_ms = 0;
    periodic = periodic;
    active = true;
  }

  abbrev restart : TimerEntry → TimerEntry
  restart entry = record entry { interval_ms = duration_ms; elapsed_ms = 0; periodic = periodic }

  restart_armed : (entry : TimerEntry) → is_timer timer_id entry ≡ true → restart entry ≡ armed_now
  restart_armed entry h =
      let id : entry.timer_id ≡ timer_id = ground arith in
      let active : entry.active ≡ true = ground arith in rw (id, active) refl

  occupied-Started :
      (entries : List TimerEntry) (o : Option (List TimerEntry))
      → find_timer timer_id entries ≡ none
      → Occupation armed_now refl entries o
      → Started timer_id duration_ms periodic entries (settle entries o)
  unfolding settle
  occupied-Started entries none absent r = record {
    done = rw (is_timer_active-find timer_id entries, absent, r) refl;
    maps = λ h. cc;
    refuses = λ h. refl;
    unique = λ u. u;
  }
  occupied-Started entries (some changed) absent r = record {
    done = rw (is_timer_active-find timer_id entries, absent, r.free) refl;
    maps = λ h. by_id timer_id (some armed_now) entries changed (r.now absent) r.others;
    refuses = λ h. cc;
    unique = r.unique absent;
  }

  restarted-Started :
      (entries : List TimerEntry) (o : Option (List TimerEntry))
      → Update timer_id restart entries o
      → Started timer_id duration_ms periodic entries
          (start_or_occupy timer_id duration_ms periodic entries o)
  unfolding start_or_occupy occupy
  restarted-Started entries none absent =
      occupied-Started entries _ absent (update_first-Occupation armed_now refl entries)
  restarted-Started entries (some changed) r = record {
    done = rw (is_timer_active-find timer_id entries, r.found) refl;
    maps = λ h.
        by_id timer_id (some armed_now) entries changed
          (r.now ∙ ap some (restart_armed r.was r.here)) r.others;
    refuses = λ h. cc;
    unique = r.unique;
  }

  -- start_timer succeeds exactly if the timer is active or an entry is free. Then the timer is active
  -- with the settings given, at the beginning of its interval, and the other timers are as they were;
  -- else nothing changes. No timer gets a second active entry.
  pub start_timer-Started :
      (entries : List TimerEntry)
      → Started timer_id duration_ms periodic entries
          (start_timer timer_id duration_ms periodic entries)
  unfolding start_timer
  start_timer-Started entries =
      restarted-Started entries _
        (update_first-Update timer_id restart (λ e. refl) (λ e. refl) entries)
