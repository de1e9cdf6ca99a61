-- ===== src/Nft/Cases.antt =====
-- For each dispatchable of pallets/nft/src/lib.rs, how it can end: a predicate on outcomes holds of
-- the call if it holds of each error and of the final states, under the facts that hold there.
pub mod Parts
mod Items
mod Orders
pub use Parts.{complete_cases}
pub use Items.*
pub use Orders.*
