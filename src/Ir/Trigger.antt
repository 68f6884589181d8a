-- ===== src/Ir/Trigger.antt =====
-- trigger.hpp: what sets a transition off, with the fields that decide whether time passes.
use fsmc.Common.{ℕ, ◌*◌, ◌/◌, ◌%◌, ◌^◌, String, if◌then◌else◌, ltb}

pub data TimeUnit : Type 0 where
  nanoseconds microseconds milliseconds seconds minutes : TimeUnit

-- std::uint64_t arithmetic, which wraps.
unfoldable pub to_milliseconds : ℕ → TimeUnit → ℕ
to_milliseconds val nanoseconds = val / 1000000
to_milliseconds val microseconds = val / 1000
to_milliseconds val milliseconds = val
to_milliseconds val seconds = val * 1000 % 2 ^ 64
to_milliseconds val minutes = val * 60000 % 2 ^ 64

pub record TimeTrigger : Type 0 where
  pub duration_value : ℕ
  pub unit : TimeUnit
  pub duration_ms : ℕ

unfoldable pub duration_in_ms : TimeTrigger → ℕ
unfolding to_milliseconds
duration_in_ms t =
    if ltb 0 t.duration_ms then t.duration_ms else to_milliseconds t.duration_value t.unit

-- The alternatives of TriggerVariant. A signal trigger is its signal_name, a change trigger its
-- raw_expression.
pub data Trigger : Type 0 where
  signal : String → Trigger
  time : TimeTrigger → Trigger
  change : String → Trigger
  anonymous : Trigger
