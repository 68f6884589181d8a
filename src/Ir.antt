-- ===== src/Ir.antt =====
-- The intermediate representation: include/fsm/ir and src/ir.
pub mod Guard
pub mod Trigger
pub mod Model
pub mod GraphOps
