-- ===== src/Frontend.antt =====
-- The parts that the front ends share: src/frontend/common and src/frontend/directive.
pub mod Identifier
pub mod GuardParser
