-- ===== src/Nft/Tests.antt =====
-- A host that runs, test data, and the theorems at concrete inputs.
pub mod Ledger
pub mod Numbers
pub mod Data
mod Runs
mod Examples
mod Acceptance
mod Rates
mod Chains
