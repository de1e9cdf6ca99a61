-- ===== src/Nft.antt =====
-- The pallet pallets/nft/src/lib.rs.
pub mod Types
pub mod Effects
pub mod Payout
pub mod Parts
pub mod Calls
pub mod Steps
pub mod States
pub mod Guards
pub mod Reasons
pub mod Cases
pub mod WellFormed
pub mod Dispatch
pub mod Backing
pub mod Market
pub mod Acceptance
pub mod Trading
pub mod Mock
pub mod Tests
