-- ===== src/Samples.antt =====
-- Concrete libraries and values: the parameters of the model can be filled, and the theorems apply.
pub mod JsonTree
pub mod BlockCode
pub mod ToySsl
pub mod Messages
mod Keys
mod Records
mod Transfers
pub mod Meshes
mod Announced
mod Beacons
mod Pictures
mod Runs
mod Sending
mod Servers
mod Windows
