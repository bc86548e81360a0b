-- ===== src/Config.antt =====
-- Scenarios: src/nttd/config/scenario_config.py and benchmark_profile.py.
pub mod Tree
pub mod Tables
pub mod Profile
pub mod Validate
pub mod Scored
pub mod Settings
pub mod Export
pub mod Load
pub mod Apply
pub mod Conditions
pub mod Clears
pub mod Checks
pub mod Admission
pub mod Written
pub mod EndKeys
pub mod RoundTrip
pub mod Limits
pub mod MapSize
pub mod Locked
