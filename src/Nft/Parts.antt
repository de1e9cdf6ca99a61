-- ===== src/Nft/Parts.antt =====
-- The parts from which the dispatchables of pallets/nft/src/lib.rs are made: the storage writes, the
-- shared checks and the helpers of `impl Module`.
use nft101_rust.Prelude.{
  ℕ, Bool, not, Option, none, some, List, [], ◌∷◌, ltb, ◌==◌, is_some, checked_sub, update,
}
use nft101_rust.Frame.{AccountId, Host}
use nft101_rust.Nft.Types.{Order, Nft, Bid, Vote, State, Event, Error}
use nft101_rust.Nft.Effects.{
  M, pure, ◌>>=◌, ◌>>◌, ensure, ok_or, try_reply, gets, modify, deposit_event,
}

-- The map lookups and writes of the handlers.
module _ {L : Type 0} where
  abbrev pub set_ledger : L → State L → State L
  set_ledger l s = record s { ledger = l }

  abbrev pub set_nft_account : ℕ → AccountId → State L → State L
  set_nft_account nft_id who s = record s { nft_account = update s.nft_account nft_id who }

  abbrev pub set_nft : ℕ → Option Nft → State L → State L
  set_nft nft_id nft s = record s { nfts = update s.nfts nft_id nft }

  abbrev pub set_order : ℕ → Option Order → State L → State L
  set_order order_id order s = record s { orders = update s.orders order_id order }

  abbrev pub set_nft_order : ℕ → Option ℕ → State L → State L
  set_nft_order nft_id order_id s = record s { nft_order = update s.nft_order nft_id order_id }

  abbrev pub set_bid : ℕ → Option Bid → State L → State L
  set_bid order_id bid s = record s { bids = update s.bids order_id bid }

  abbrev pub set_votes : ℕ → List Vote → State L → State L
  set_votes order_id votes s = record s { votes = update s.votes order_id votes }

  -- The three checks that `remove`, `transfer` and `order_sell` share.
  abbrev pub ensure_free_nft : AccountId → ℕ → M L (Unit {0})
  ensure_free_nft who nft_id = do
    found ← gets (λ s. s.nfts nft_id)
    ensure (is_some found) Error.nft_id_not_exist
    owner ← gets (λ s. s.nft_account nft_id)
    ensure (owner == who) Error.not_nft_owner
    listed ← gets (λ s. s.nft_order nft_id)
    ensure (not (is_some listed)) Error.nft_order_exist

  -- Whether more blocks have passed since the order was made than it is to be kept.
  unfoldable pub is_time_to_settlement : Order → M L Bool
  is_time_to_settlement order = do
    now ← gets (λ s. s.block_number)
    sub_block ← ok_or (checked_sub now order.create_block) Error.block_number_overflow
    pure (ltb order.keep_block_num sub_block)

  -- `if let Some(bid) = bidopt { ensure!(bid.price < price, ..) }`
  abbrev pub ensure_outbids : Option Bid → ℕ → M L (Unit {0})
  ensure_outbids none price = pure tt
  ensure_outbids (some bid) price = ensure (ltb bid.price price) Error.order_price_too_small

module _ {O L F N : Type 0} (h : Host O L F N) where
  -- `ensure_signed(origin)?`
  abbrev pub signed : O → M L AccountId
  signed origin = try_reply (h.ensure_signed origin)

  abbrev pub release_bid : ℕ → Option Bid → M L (Unit {0})
  release_bid order_id none = pure tt
  release_bid order_id (some bid) = do
    modify (λ s. set_ledger (h.currency.unreserve bid.owner bid.price s.ledger) s)
    modify (set_bid order_id none)

  unfoldable pub clean_order_bid : ℕ → M L (Unit {0})
  clean_order_bid order_id = do bid_opt ← gets (λ s. s.bids order_id); release_bid order_id bid_opt

  unfoldable pub place_bid : AccountId → ℕ → ℕ → M L (Unit {0})
  unfolding clean_order_bid
  place_bid who order_id price = do
    before ← gets (λ s. s.ledger)
    ledger ← try_reply (h.currency.reserve who price before)
    modify (set_ledger ledger)
    clean_order_bid order_id
    modify (set_bid order_id (some (record { order_id = order_id; price = price; owner = who })))
    deposit_event (Event.order_buy who order_id)

  unfoldable pub unlock_votes : List Vote → L → L
  unlock_votes [] l = l
  unlock_votes (vote ∷ votes) l = unlock_votes votes (h.currency.unreserve vote.owner vote.amount l)

  -- The branch of `order_settlement` for an order without a bid.
  unfoldable pub cancel : Order → ℕ → M L (Unit {0})
  cancel order order_id = do
    modify (set_order order_id none)
    modify (set_nft_order order.nft_id none)
    votes ← gets (λ s. s.votes order_id)
    modify (λ s. set_ledger (unlock_votes votes s.ledger) s)
    modify (set_votes order_id [])
    deposit_event (Event.order_cancel order.owner order_id)
