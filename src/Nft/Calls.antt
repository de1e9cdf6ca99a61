-- ===== src/Nft/Calls.antt =====
-- The dispatchables of pallets/nft/src/lib.rs, and `order_complete`.
use nft101_rust.Prelude.{
  ℕ, not, Option, none, some, List, [], ◌∷◌, ◌++◌, leb, checked_add, checked_sub, if◌then◌else◌,
}
use nft101_rust.Frame.{AccountId, Host}
use nft101_rust.Nft.Types.{Order, Nft, Bid, Vote, Config, Event, Error}
use nft101_rust.Nft.Effects.{
  M, ◌>>=◌, ◌>>◌, ensure, ok_or, try_reply, or_panic, gets, modify, deposit_event,
}
use nft101_rust.Nft.Payout.{algorithm}
use nft101_rust.Nft.Parts.{
  set_ledger, set_nft_account, set_nft, set_order, set_nft_order, set_votes, ensure_free_nft,
  is_time_to_settlement, ensure_outbids, signed, clean_order_bid, place_bid, cancel,
}

module _ {O L F N : Type 0} (h : Host O L F N) (c : Config F) where
  unfoldable pub create : O → List ℕ → List ℕ → List ℕ → M L (Unit {0})
  create origin title url desc = do
    who ← signed h origin
    let nft : Nft = record { title = title; url = url; desc = desc }
    nft_id ← gets (λ s. s.next_nft_id)
    next ← ok_or (checked_add c.max_nft_id nft_id 1) Error.nft_id_overflow
    modify (set_nft nft_id (some nft))
    modify (set_nft_account nft_id who)
    deposit_event (Event.nft_created who nft_id)
    modify (λ s. record s { next_nft_id = next })

  unfoldable pub remove : O → ℕ → M L (Unit {0})
  remove origin nft_id = do
    who ← signed h origin
    ensure_free_nft who nft_id
    modify (set_nft_account nft_id c.default_account)
    modify (set_nft nft_id none)
    deposit_event (Event.nft_remove who nft_id)

  unfoldable pub transfer : O → AccountId → ℕ → M L (Unit {0})
  transfer origin target nft_id = do
    who ← signed h origin
    ensure_free_nft who nft_id
    modify (set_nft_account nft_id target)
    deposit_event (Event.nft_transfer who target nft_id)

  unfoldable pub order_sell : O → ℕ → ℕ → ℕ → ℕ → M L (Unit {0})
  order_sell origin nft_id start_price end_price keep_block_num = do
    who ← signed h origin
    ensure (leb keep_block_num c.max_keep_block_number) Error.keep_block_num_too_big
    ensure (leb c.min_keep_block_number keep_block_num) Error.keep_block_num_too_small
    ensure_free_nft who nft_id
    ensure (leb c.minimum_price start_price) Error.start_price_too_low
    ensure (leb start_price end_price) Error.order_price_illegal
    order_id ← gets (λ s. s.next_order_id)
    now ← gets (λ s. s.block_number)
    let order : Order = record {
      order_id = order_id;
      start_price = start_price;
      end_price = end_price;
      nft_id = nft_id;
      create_block = now;
      keep_block_num = keep_block_num;
      owner = who;
    }
    next ← ok_or (checked_add c.max_order_id order_id 1) Error.order_id_overflow
    modify (set_order order_id (some order))
    modify (set_nft_order nft_id (some order_id))
    modify (set_votes order_id [])
    deposit_event (Event.order_sell who order_id)
    modify (λ s. record s { next_order_id = next })

  unfoldable pub order_complete : Order → AccountId → ℕ → AccountId → M L (Unit {0})
  order_complete order bid price settlement = do
    before ← gets (λ s. s.ledger)
    ledger ← try_reply (h.currency.transfer bid order.owner price before)
    modify (set_ledger ledger)
    modify (set_order order.order_id none)
    modify (set_nft_order order.nft_id none)
    votes ← gets (λ s. s.votes order.order_id)
    paid ← or_panic (algorithm h c order price votes ledger)
    modify (set_ledger paid)
    modify (set_votes order.order_id [])
    modify (set_nft_account order.nft_id bid)
    deposit_event (Event.order_complete bid order.order_id)

  unfoldable pub order_buy : O → ℕ → ℕ → M L (Unit {0})
  unfolding is_time_to_settlement clean_order_bid place_bid
  order_buy origin order_id price = do
    who ← signed h origin
    found ← gets (λ s. s.orders order_id)
    order ← ok_or found Error.order_not_exist
    over ← is_time_to_settlement order
    ensure (not over) Error.is_time_to_settlement
    ensure (leb c.minimum_price price) Error.price_too_low
    ensure (leb order.start_price price) Error.order_price_too_small
    bidopt ← gets (λ s. s.bids order_id)
    ensure_outbids bidopt price
    if leb order.end_price price
        then order_complete order who order.end_price who >> clean_order_bid h order_id
        else place_bid h who order_id price

  abbrev settle : AccountId → Order → ℕ → Option Bid → M L (Unit {0})
  settle who order order_id none = cancel h order order_id
  settle who order order_id (some bid) = do
    clean_order_bid h order_id
    order_complete order bid.owner bid.price who
    deposit_event (Event.order_complete bid.owner order_id)

  unfoldable pub order_settlement : O → ℕ → M L (Unit {0})
  unfolding is_time_to_settlement clean_order_bid cancel
  order_settlement origin order_id = do
    who ← signed h origin
    found ← gets (λ s. s.orders order_id)
    order ← ok_or found Error.order_not_exist
    over ← is_time_to_settlement order
    ensure over Error.is_not_time_to_settlement
    bidopt ← gets (λ s. s.bids order_id)
    settle who order order_id bidopt

  unfoldable pub vote_order : O → ℕ → ℕ → M L (Unit {0})
  unfolding is_time_to_settlement
  vote_order origin order_id amount = do
    who ← signed h origin
    found ← gets (λ s. s.orders order_id)
    order ← ok_or found Error.order_not_exist
    over ← is_time_to_settlement order
    ensure (not over) Error.is_time_to_settlement
    ensure (leb c.minimum_voting_lock amount) Error.vote_amount_too_low
    now ← gets (λ s. s.block_number)
    end_block ←
        ok_or (checked_add c.max_block_number order.create_block order.keep_block_num)
          Error.block_number_overflow
    keep_block_num ← ok_or (checked_sub end_block now) Error.block_number_overflow
    before ← gets (λ s. s.ledger)
    ledger ← try_reply (h.currency.reserve who amount before)
    modify (set_ledger ledger)
    votes ← gets (λ s. s.votes order_id)
    let vote : Vote = record {
      order_id = order_id;
      amount = amount;
      keep_block_num = keep_block_num;
      owner = who;
    }
    modify (set_votes order_id (votes ++ vote ∷ []))
