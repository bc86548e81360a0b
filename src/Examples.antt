-- ===== src/Examples.antt =====
-- Tests of the model on concrete inputs, and one application of each theorem.
pub mod Sessions
pub mod Paths
pub mod Records
pub mod Streams
pub mod Agents
pub mod Batches
pub mod Scenarios
pub mod Steps
