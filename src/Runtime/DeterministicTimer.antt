-- ===== src/Runtime/DeterministicTimer.antt =====
-- deterministic_timer.hpp: the timers that tick calls step, for machines with at least one. An array of
-- MaxTimers entries is a list of that length. Durations are 64-bit and the generation is 32-bit.
pub mod Entries
pub mod Start
pub mod Ticks
mod Examples
use fsmc.Common.{
  ℕ, ◌+◌, ◌%◌, ◌^◌, Bool, true, false, ◌&&◌, not, List, [], ◌∷◌, Option, none, some, ◌==◌, ltb, leb,
  if◌then◌else◌, map, replicate,
}

pub record TimerEntry : Type 0 where
  pub timer_id : ℕ
  pub interval_ms : ℕ
  pub elapsed_ms : ℕ
  pub periodic : Bool
  pub active : Bool

pub record TimerManager : Type 0 where
  pub timers : List TimerEntry
  pub generation : ℕ

abbrev unused : TimerEntry
unused = record { timer_id = 0; interval_ms = 0; elapsed_ms = 0; periodic = false; active = false }

unfoldable pub initial : ℕ → TimerManager
initial max_timers = record { timers = replicate max_timers unused; generation = 0 }

abbrev pub is_timer : ℕ → TimerEntry → Bool
is_timer timer_id entry = entry.active && (entry.timer_id == timer_id)

abbrev pub is_free : TimerEntry → Bool
is_free entry = not entry.active

cons_option : TimerEntry → Option (List TimerEntry) → Option (List TimerEntry)
cons_option entry none = none
cons_option entry (some entries) = some (entry ∷ entries)

-- A loop that changes the first entry that passes a test and returns.
unfoldable pub update_first :
    (TimerEntry → Bool) → (TimerEntry → TimerEntry) → List TimerEntry → Option (List TimerEntry)
unfolding cons_option
update_first test change [] = none
update_first test change (entry ∷ entries) =
    if test entry
    then some (change entry ∷ entries)
    else cons_option entry (update_first test change entries)

-- The array after such a loop, and whether there was an entry.
unfoldable pub settle : List TimerEntry → Option (List TimerEntry) → List TimerEntry × Bool
settle entries none = (entries, false)
settle entries (some changed) = (changed, true)

unfoldable pub occupy : ℕ → ℕ → ℕ → Bool → List TimerEntry → List TimerEntry × Bool
unfolding update_first settle
occupy timer_id interval_ms elapsed_ms periodic entries = settle entries (
    update_first is_free
      (λ entry. record {
        timer_id = timer_id;
        interval_ms = interval_ms;
        elapsed_ms = elapsed_ms;
        periodic = periodic;
        active = true;
      })
      entries)

unfoldable pub start_or_occupy :
    ℕ → ℕ → Bool → List TimerEntry → Option (List TimerEntry) → List TimerEntry × Bool
unfolding occupy
start_or_occupy timer_id duration_ms periodic entries (some restarted) = (restarted, true)
start_or_occupy timer_id duration_ms periodic entries none =
    occupy timer_id duration_ms 0 periodic entries

unfoldable pub start_timer : ℕ → ℕ → Bool → List TimerEntry → List TimerEntry × Bool
unfolding start_or_occupy update_first
start_timer timer_id duration_ms periodic entries =
    start_or_occupy timer_id duration_ms periodic entries (
      update_first (is_timer timer_id)
        (λ entry. record entry { interval_ms = duration_ms; elapsed_ms = 0; periodic = periodic })
        entries)

unfoldable pub set_timer_duration : ℕ → ℕ → List TimerEntry → List TimerEntry × Bool
unfolding settle update_first
set_timer_duration timer_id duration_ms entries =
    settle entries (
      update_first (is_timer timer_id) (λ entry. record entry { interval_ms = duration_ms })
        entries)

unfoldable pub cancel_timer : ℕ → List TimerEntry → List TimerEntry × Bool
unfolding settle update_first
cancel_timer timer_id entries =
    settle entries
      (update_first (is_timer timer_id) (λ entry. record entry { active = false }) entries)

unfoldable pub restore_timer : ℕ → ℕ → ℕ → Bool → List TimerEntry → List TimerEntry × Bool
unfolding occupy
restore_timer timer_id interval_ms elapsed_ms periodic entries =
    occupy timer_id interval_ms elapsed_ms periodic entries

unfoldable pub reset : TimerManager → TimerManager
reset manager = record {
  timers =
      map {A = TimerEntry} (λ entry. record entry { active = false; elapsed_ms = 0 })
        manager.timers;
  generation = (manager.generation + 1) % 2 ^ 32;
}

unfoldable pub is_timer_active : ℕ → List TimerEntry → Bool
is_timer_active timer_id [] = false
is_timer_active timer_id (entry ∷ entries) =
    if is_timer timer_id entry then true else is_timer_active timer_id entries

unfoldable pub active_count : List TimerEntry → ℕ
active_count [] = 0
active_count (entry ∷ entries) =
    if entry.active then active_count entries + 1 else active_count entries

-- `elapsed_ms += delta_ms`, and whether the timer has expired then.
abbrev pub elapsed : ℕ → TimerEntry → ℕ
elapsed delta_ms entry = (entry.elapsed_ms + delta_ms) % 2 ^ 64

abbrev pub expires : ℕ → TimerEntry → Bool
expires delta_ms entry = leb entry.interval_ms (elapsed delta_ms entry)

-- What tick does to an active entry.
unfoldable pub advance : ℕ → TimerEntry → TimerEntry
advance delta_ms entry =
    if expires delta_ms entry
    then if entry.periodic
      then record entry {
        elapsed_ms =
            if ltb 0 entry.interval_ms then elapsed delta_ms entry % entry.interval_ms else 0;
      }
      else record entry { elapsed_ms = elapsed delta_ms entry; active = false }
    else record entry { elapsed_ms = elapsed delta_ms entry }

unfoldable pub sweep_entry : ℕ → TimerEntry → TimerEntry
unfolding advance
sweep_entry delta_ms entry = if entry.active then advance delta_ms entry else entry

-- The first loop of tick: the entries after it, and the expired timers in their order.
unfoldable pub sweep : ℕ → List TimerEntry → List TimerEntry × List ℕ
unfolding sweep_entry
sweep delta_ms [] = ([], [])
sweep delta_ms (entry ∷ entries) =
    let (swept, expired) = sweep delta_ms entries in
    (
      sweep_entry delta_ms entry ∷ swept,
      if entry.active && expires delta_ms entry then entry.timer_id ∷ expired else expired,
    )

-- The callback works on the machine `S`, which holds the timers.
module _ {S : Type 0} (manager : S → TimerManager) (on_expired : ℕ → S → S) where
  -- The second loop of tick, with the number of callbacks made.
  unfoldable pub dispatch_expired : ℕ → List ℕ → S → S × ℕ
  dispatch_expired start_gen [] s = (s, 0)
  dispatch_expired start_gen (timer_id ∷ expired) s =
      let (s', dispatched) = dispatch_expired start_gen expired (on_expired timer_id s) in
      if (manager s).generation == start_gen then (s', dispatched + 1) else (s, 0)

  unfoldable pub tick : (TimerManager → S → S) → ℕ → S → S × ℕ
  unfolding sweep dispatch_expired
  tick put delta_ms s =
      let (swept, expired) = sweep delta_ms (manager s).timers in
      dispatch_expired (manager s).generation expired
        (put (record { timers = swept; generation = (manager s).generation }) s)
