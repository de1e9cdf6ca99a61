-- ===== src/Nft/Reasons.antt =====
-- What is wrong when a call of pallets/nft/src/lib.rs returns an error: a condition for each error that the
-- call can return, and none for the others.
use nft101_rust.Prelude.{ℕ, ◌+◌, ◌-◌, ◌≤◌, ◌<◌, ◌≡◌, ◌≢◌, ◌⊎◌, none, some}
use nft101_rust.Frame.{AccountId, Host, accepted, refused}
use nft101_rust.Nft.Types.{State, Order, Bid, Config, Error, DispatchError, module_error, foreign}
use nft101_rust.Nft.Dispatch.{
  Call, create, remove, transfer, order_sell, order_buy, order_settlement, vote_order,
}

module _ {O L F N : Type 0} (h : Host O L F N) (c : Config F) (origin : O) (s : State L) where
  -- The caller does not have the item for itself.
  abbrev pub NotFree : ℕ → Error → Type 0
  NotFree n Error.nft_id_not_exist = s.nfts n ≡ none
  NotFree n Error.not_nft_owner =
      (who : AccountId) × (h.ensure_signed origin ≡ accepted who) × (s.nft_account n ≢ who)
  NotFree n Error.nft_order_exist = (o : ℕ) × (s.nft_order n ≡ some o)
  NotFree n _ = ⊥

  abbrev pub SellReason : ℕ → ℕ → ℕ → ℕ → Error → Type 0
  SellReason n start_price end_price keep Error.keep_block_num_too_big =
      c.max_keep_block_number < keep
  SellReason n start_price end_price keep Error.keep_block_num_too_small =
      keep < c.min_keep_block_number
  SellReason n start_price end_price keep Error.start_price_too_low = start_price < c.minimum_price
  SellReason n start_price end_price keep Error.order_price_illegal = end_price < start_price
  SellReason n start_price end_price keep Error.order_id_overflow =
      c.max_order_id < s.next_order_id + 1
  SellReason n start_price end_price keep e = NotFree n e

  -- The order cannot be traded now: there is none, it is from a later block, or its time has passed.
  abbrev pub NotRunning : ℕ → Error → Type 0
  NotRunning o Error.order_not_exist = s.orders o ≡ none
  NotRunning o Error.block_number_overflow =
      (order : Order) × (s.orders o ≡ some order) × (s.block_number < order.create_block)
  NotRunning o Error.is_time_to_settlement =
      (order : Order) × (s.orders o ≡ some order)
      × (order.keep_block_num < s.block_number - order.create_block)
  NotRunning o _ = ⊥

  abbrev pub BuyReason : ℕ → ℕ → Error → Type 0
  BuyReason o price Error.price_too_low = price < c.minimum_price
  BuyReason o price Error.order_price_too_small =
      ((order : Order) × (s.orders o ≡ some order) × (price < order.start_price))
      ⊎ ((bid : Bid) × (s.bids o ≡ some bid) × (price ≤ bid.price))
  BuyReason o price e = NotRunning o e

  abbrev pub SettlementReason : ℕ → Error → Type 0
  SettlementReason o Error.order_not_exist = s.orders o ≡ none
  SettlementReason o Error.block_number_overflow =
      (order : Order) × (s.orders o ≡ some order) × (s.block_number < order.create_block)
  SettlementReason o Error.is_not_time_to_settlement =
      (order : Order) × (s.orders o ≡ some order)
      × (s.block_number - order.create_block ≤ order.keep_block_num)
  SettlementReason o _ = ⊥

  abbrev pub VoteReason : ℕ → ℕ → Error → Type 0
  VoteReason o amount Error.vote_amount_too_low = amount < c.minimum_voting_lock
  VoteReason o amount Error.block_number_overflow =
      (order : Order) × (s.orders o ≡ some order)
      × ((s.block_number < order.create_block)
          ⊎ (c.max_block_number < order.create_block + order.keep_block_num))
  VoteReason o amount e = NotRunning o e

  -- The ledger refuses what the call asks of it.
  abbrev pub LedgerRefuses : Call → ℕ → Type 0
  LedgerRefuses (order_buy o price) e =
      (who : AccountId) × (order : Order) × (h.ensure_signed origin ≡ accepted who)
      × (s.orders o ≡ some order)
      × ((h.currency.transfer who order.owner order.end_price s.ledger ≡ refused e)
          ⊎ (h.currency.reserve who price s.ledger ≡ refused e))
  LedgerRefuses (order_settlement o) e =
      (order : Order) × (bid : Bid) × (s.orders o ≡ some order)
      × (s.bids o ≡ some bid)
      × (h.currency.transfer bid.owner order.owner bid.price
            (h.currency.unreserve bid.owner bid.price s.ledger)
          ≡ refused e)
  LedgerRefuses (vote_order o amount) e =
      (who : AccountId) × (h.ensure_signed origin ≡ accepted who)
      × (h.currency.reserve who amount s.ledger ≡ refused e)
  LedgerRefuses _ e = ⊥

  abbrev pub Reason : Call → DispatchError → Type 0
  Reason call (foreign e) = (h.ensure_signed origin ≡ refused e) ⊎ LedgerRefuses call e
  Reason (create title url desc) (module_error Error.nft_id_overflow) =
      c.max_nft_id < s.next_nft_id + 1
  Reason (create title url desc) (module_error _) = ⊥
  Reason (remove n) (module_error e) = NotFree n e
  Reason (transfer target n) (module_error e) = NotFree n e
  Reason (order_sell n start_price end_price keep) (module_error e) =
      SellReason n start_price end_price keep e
  Reason (order_buy o price) (module_error e) = BuyReason o price e
  Reason (order_settlement o) (module_error e) = SettlementReason o e
  Reason (vote_order o amount) (module_error e) = VoteReason o amount e
