-- ===== src/Runtime/FlightRecorder.antt =====
-- flight_recorder.hpp: the trace buffer, and the observer that writes into it. The template's Capacity
-- is a parameter. The printed dump of the entries is not modelled.
pub mod Trail
pub mod Recent
mod Examples
use fsmc.Common.{
  ℕ, ◌+◌, ◌-◌, ◌%◌, ◌^◌, Bool, true, false, String, List, Option, none, some, ◌==◌, ltb,
  if◌then◌else◌, get_or, set, replicate,
}
use fsmc.Runtime.TransitionExecutor.{TransitionInfo, DispatchStatus, success}

pub record TraceEntry : Type 0 where
  pub tick : ℕ
  pub source_state : String
  pub event_name : String
  pub target_state : String
  pub transition_taken : Bool

pub record TraceBuffer : Type 0 where
  pub buffer : List TraceEntry
  pub head : ℕ
  pub count : ℕ

abbrev pub blank : TraceEntry
blank = record {
  tick = 0;
  source_state = "";
  event_name = "";
  target_state = "";
  transition_taken = true;
}

unfoldable pub initial : ℕ → TraceBuffer
initial capacity = record { buffer = replicate capacity blank; head = 0; count = 0 }

-- `record` of the source.
unfoldable pub record_entry : ℕ → TraceBuffer → TraceEntry → TraceBuffer
record_entry capacity b entry = record {
  buffer = set b.buffer b.head entry;
  head = (b.head + 1) % capacity;
  count = if ltb b.count capacity then b.count + 1 else b.count;
}

unfoldable pub push : ℕ → TraceBuffer → TraceEntry → TraceBuffer
unfolding record_entry
push capacity b entry = record_entry capacity b entry

unfoldable pub clear : TraceBuffer → TraceBuffer
clear b = record b { head = 0; count = 0 }

unfoldable pub empty : TraceBuffer → Bool
empty b = b.count == 0

unfoldable pub full : ℕ → TraceBuffer → Bool
full capacity b = b.count == capacity

-- `operator[]`: 0 is the oldest entry.
unfoldable pub at : ℕ → TraceBuffer → ℕ → TraceEntry
at capacity b index =
    let start = if b.count == capacity then b.head else 0 in
    get_or b.buffer ((start + index) % capacity) blank

unfoldable pub last_entry : ℕ → TraceBuffer → Option TraceEntry
last_entry capacity b =
    if b.count == 0 then none else some (get_or b.buffer ((b.head + capacity - 1) % capacity) blank)

-- flight_recorder_observer.
pub record FlightRecorderObserver : Type 0 where
  pub current_tick : ℕ
  pub recorder : TraceBuffer

unfoldable pub set_tick : FlightRecorderObserver → ℕ → FlightRecorderObserver
set_tick o tick = record o { current_tick = tick }

unfoldable pub advance_tick : FlightRecorderObserver → ℕ → FlightRecorderObserver
advance_tick o dt = record o { current_tick = (o.current_tick + dt) % 2 ^ 64 }

is_success : DispatchStatus → Bool
is_success status = elim status [ success ↦ true | _ ↦ false ]

unfoldable pub observe : ℕ → FlightRecorderObserver → TransitionInfo → FlightRecorderObserver
unfolding record_entry is_success
observe capacity o info = record o {
  recorder = record_entry capacity o.recorder record {
    tick = o.current_tick;
    source_state = info.source;
    event_name = info.event;
    target_state = info.target;
    transition_taken = is_success info.status;
  };
}

unfoldable pub on_transition :
    ℕ → FlightRecorderObserver → String → String → String → FlightRecorderObserver
unfolding record_entry
on_transition capacity o src_name evt_name dst_name = record o {
  recorder = record_entry capacity o.recorder record {
    tick = o.current_tick;
    source_state = src_name;
    event_name = evt_name;
    target_state = dst_name;
    transition_taken = true;
  };
}
