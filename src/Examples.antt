-- ===== src/Examples.antt =====
-- The theorems at work: a concrete surrounding, and each theorem applied in it.
pub mod World
mod Discovering
mod Generating
mod Registering
mod Inventory
mod Provisioning
mod Reconciling
mod Hosts
mod Controlling
