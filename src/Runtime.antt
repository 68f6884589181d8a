-- ===== src/Runtime.antt =====
-- The C++ runtime that generated machines link against: include/fsm/backend/cpp/runtime.
pub mod Ring
pub mod StaticRingBuffer
pub mod StaticVector
pub mod HistoryManager
pub mod DeferredManager
pub mod StateType
pub mod TransitionExecutor
pub mod DeterministicTimer
pub mod FlightRecorder
pub mod Fsm
pub mod SpscRingBuffer
pub mod AsyncEventQueue
