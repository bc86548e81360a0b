-- ===== src/Session.antt =====
-- A running session: src/nttd/runtime/orchestrator.py and the parts of src/nttd/state that it uses.
pub mod Footprint
pub mod Refresh
pub mod Batch
pub mod Cycle
pub mod Step
