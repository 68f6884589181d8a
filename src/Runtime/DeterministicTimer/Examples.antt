-- ===== src/Runtime/DeterministicTimer/Examples.antt =====
-- Timers on a concrete array, and instances of the theorems about them.
use fsmc.Common.{ℕ, ◌≡◌, refl, true, false, List, [], ◌∷◌, ◌==◌, if◌then◌else◌}
use fsmc.Runtime.DeterministicTimer.{
  TimerEntry, TimerManager, start_timer, update_first, start_or_occupy, occupy, settle, sweep,
  sweep_entry, advance, reset, tick, dispatch_expired,
}
use fsmc.Runtime.DeterministicTimer.Start.{Started, start_timer-Started}
use fsmc.Runtime.DeterministicTimer.Ticks.{Ticked, tick-Ticked}

abbrev blinking : TimerEntry
blinking = record { timer_id = 4; interval_ms = 10; elapsed_ms = 7; periodic = true; active = true }

abbrev stale : TimerEntry
stale = record { timer_id = 6; interval_ms = 90; elapsed_ms = 3; periodic = false; active = false }

abbrev timeout : TimerEntry
timeout = record { timer_id = 5; interval_ms = 12; elapsed_ms = 4; periodic = false; active = true }

abbrev entries : List TimerEntry
entries = blinking ∷ stale ∷ timeout ∷ []

start_timer_runs : start_timer 6 30 false entries ≡ (
  blinking
      ∷ record { timer_id = 6; interval_ms = 30; elapsed_ms = 0; periodic = false; active = true }
      ∷ timeout
      ∷ [],
  true,
)
unfolding start_timer update_first start_or_occupy occupy settle
start_timer_runs = refl

start_timer-Started_example : Started 6 30 false entries (start_timer 6 30 false entries)
start_timer-Started_example = start_timer-Started 6 30 false entries

-- A machine that keeps a log of the timers that expire, and leaves its state on timer 4.
abbrev Machine : Type 0
Machine = TimerManager × List ℕ

abbrev leaves : ℕ → Machine → Machine
leaves timer_id (manager, log) = (if timer_id == 4 then reset manager else manager, timer_id ∷ log)

abbrev machine : Machine
machine = (record { timers = entries; generation = 0 }, [])

abbrev put : TimerManager → Machine → Machine
put manager (old, log) = (manager, log)

abbrev manager_of : Machine → TimerManager
manager_of m = m.0

tick_runs : (tick manager_of leaves put 8 machine).1 ≡ 1
unfolding tick sweep sweep_entry advance dispatch_expired reset
tick_runs = refl

tick-Ticked_example : Ticked manager_of leaves put 8 machine (tick manager_of leaves put 8 machine)
tick-Ticked_example =
    tick-Ticked manager_of leaves put 8 machine (λ h. refl, (λ h. refl, (λ h. refl, tt)))
