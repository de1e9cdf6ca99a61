-- ===== src/Nft/Trading.antt =====
-- What the calls of pallets/nft/src/lib.rs promise to those who trade.
pub mod Atomic
pub mod Owners
pub mod Bidding
pub mod Listing
pub mod Voting
pub mod Funds
pub mod Moving
pub mod Settling
pub mod Selling
pub mod Ending
pub mod Paying
pub mod Earnings
mod LateOrders
pub mod LateVotes
use nft101_rust.Prelude.{◌≡◌}
use nft101_rust.Nft.Types.{State, DispatchError}
use nft101_rust.Nft.Effects.{Outcome, done, failed, panicked}

module _ {L : Type 0} where
  -- A predicate on states, of the state in which a call succeeds.
  abbrev pub OnSuccess : (State L → Type 0) → Outcome L (Unit {0}) → Type 0
  OnSuccess Q (done _ t) = Q t
  OnSuccess Q (failed _ t) = Unit {0}
  OnSuccess Q panicked = Unit {0}

  -- The same, of the state in which it fails.
  abbrev pub OnFailure : (State L → Type 0) → Outcome L (Unit {0}) → Type 0
  OnFailure Q (done _ t) = Unit {0}
  OnFailure Q (failed _ t) = Q t
  OnFailure Q panicked = Unit {0}
