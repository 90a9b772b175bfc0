-- ===== src/Examples.antt =====
-- Inputs at which the theorems are applied, and a platform that has the laws of `Platform`.
pub mod Encoding
pub mod Toy
pub mod Data
pub mod Accounts
mod RecordTests
mod FetchTests
mod OwnedTests
mod DeviceTests
pub mod SealingTests
mod PairingTests
pub mod StoreTests
pub mod CapabilityTests
mod HttpTests
mod RuntimeTests
mod EdgeTests
mod GatewayTests
