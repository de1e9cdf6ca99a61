-- ===== src/Nft/Market/Refined.antt =====
-- The calls of pallets/nft/src/lib.rs as changes of the items.
use nft101_rust.Prelude.{refl, ap, is_some, arith}
use nft101_rust.Frame.{Host}
use nft101_rust.Nft.Types.{State, Config}
use nft101_rust.Nft.Guards.{new_order}
use nft101_rust.Nft.Cases.{
  create_cases, remove_cases, transfer_cases, sell_cases, buy_cases, settlement_cases, vote_cases,
}
use nft101_rust.Nft.Dispatch.{
  Call, create, remove, transfer, order_sell, order_buy, order_settlement, vote_order, dispatch,
  After,
}
use nft101_rust.Nft.WellFormed.{WellFormed}
use nft101_rust.Nft.Market.{buys_out, auction, Refines}
use nft101_rust.Nft.Market.Changes.{
  unchanged, created-Refines, removed-Refines, transferred-Refines, listed-Refines,
}
use nft101_rust.Nft.Market.Auctions.{
  Beats-best_of, voted-Refines, outbid-Refines, released-Refines, cancelled-Refines, sold-Refines,
  settled-Refines,
}

module _ {O L F N : Type 0} (h : Host O L F N) (c : Config F) (s : State L)
    (w : WellFormed c s) where
  -- From a well-formed state, every call, whether it succeeds or fails, changes the storage as the
  -- view of the items allows: at most one item changes, by one of the steps of `Change` under its
  -- conditions on time and price, and every other item has the same holder or the same auction as
  -- before.
  pub dispatch-Refines : (origin : O) (call : Call) → After (Refines s) (dispatch h c origin call s)
  unfolding dispatch
  dispatch-Refines origin (create title url desc) =
      create_cases h c (After (Refines s)) origin s title url desc (λ e _. unchanged h c s w)
        λ who sg room. created-Refines h c s w who _
  dispatch-Refines origin (remove n) =
      remove_cases h c (After (Refines s)) origin s n (λ e _. unchanged h c s w)
        λ who nft sg found owner free. removed-Refines h c s w who n nft found owner free
  dispatch-Refines origin (transfer target n) =
      transfer_cases h c (After (Refines s)) origin s target n (λ e _. unchanged h c s w)
        λ who nft sg found owner free. transferred-Refines h c s w who target n nft found owner free
  dispatch-Refines origin (order_sell n start_price end_price keep) =
      sell_cases h c (After (Refines s)) origin s n start_price end_price keep
        (λ e _. unchanged h c s w)
        λ who g.
          listed-Refines h c s w (new_order who n start_price end_price keep s) refl refl g.price_le
            (ap is_some g.exists.1) g.owned g.unlisted
  dispatch-Refines origin (order_buy o price) =
      buy_cases h c (After (Refines s)) origin s o price (λ e _. unchanged h c s w)
        (λ _ _ _ _ _ _ _. tt)
        (λ who order l paid g end_le _ _. sold-Refines h c s w o order (s.bids o) who paid g.found (
          buys_out (auction order (s.bids o) (s.votes o)) who price
            (omega (arith, g.running, g.started)) end_le
            (Beats-best_of (s.bids o) price g.outbids)))
        (λ who order l g lt _.
          outbid-Refines h c s w o order (s.bids o)
            (record { order_id = o; price = price; owner = who }) l refl g.found
            (omega (arith, g.running, g.started)) g.start_le lt g.outbids)
  dispatch-Refines origin (order_settlement o) =
      settlement_cases h c (After (Refines s)) origin s o (λ e _. unchanged h c s w)
        (λ _ _ _ _ _ _ _ _ _. tt)
        (λ who order g over e.
          cancelled-Refines h c s w o order g.found e (omega (arith, over, g.started)))
        (λ who order bid _ g over e _.
          released-Refines h c s w o order bid g.found (omega (arith, over, g.started)))
        (λ who order bid l paid g over e _ _.
          settled-Refines h c s w o order bid paid _ g.found e (omega (arith, over, g.started)))
  dispatch-Refines origin (vote_order o amount) =
      vote_cases h c (After (Refines s)) origin s o amount (λ e _. unchanged h c s w)
        λ who order l g running _ _ _.
          voted-Refines h c s w o order _ l g.found (omega (arith, running, g.started))
