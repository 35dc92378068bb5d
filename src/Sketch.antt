-- ===== src/Sketch.antt =====
-- The example sketches under examples/.
pub mod Cycle
pub mod EipSession
pub mod IdentityQuery
pub mod TagReadWrite
pub mod ConnectedTagReadWrite
pub mod Runs
pub mod PlcClientDemo
pub mod ReliabilityDemo
pub mod LanInventory
