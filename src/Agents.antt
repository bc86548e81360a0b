-- ===== src/Agents.antt =====
-- What the agents receive and subscribe to: src/nttd/state/snapshot_broker.py and agent_registry.py.
pub mod Broker
pub mod Latest
pub mod Registry
pub mod Apart
