-- ===== src/Tests.antt =====
-- Runs of the modelled code on small inputs, and the theorems at concrete inputs.
pub mod Scenario
pub mod Runs
pub mod Ready
pub mod Values
pub mod Memory
pub mod Shapes
pub mod Chains
pub mod Placing
pub mod Stops
pub mod Levels
pub mod Engine
pub mod Files
