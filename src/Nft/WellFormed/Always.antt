-- ===== src/Nft/WellFormed/Always.antt =====
-- The invariant after every call of pallets/nft/src/lib.rs, and throughout the life of a chain.
use nft101_rust.Prelude.{ℕ, ◌≡◌, refl, is_some, Option, none, some, arith, ap, sym}
use nft101_rust.Frame.{AccountId, Host}
use nft101_rust.Nft.Types.{State, Order, Bid, Config, Event}
use nft101_rust.Nft.States.{logged, completed, released, cancelled}
use nft101_rust.Nft.Cases.{
  create_cases, remove_cases, transfer_cases, sell_cases, buy_cases, settlement_cases, vote_cases,
}
use nft101_rust.Nft.Dispatch.{
  Call, create, remove, transfer, order_sell, order_buy, order_settlement, vote_order, dispatch,
  ends_after, Step, calls, next_block, outside, Reach, here, next, genesis, After,
}
use nft101_rust.Nft.WellFormed.{WellFormed, GoodOrder}
use nft101_rust.Nft.WellFormed.Kept.{
  created-WellFormed, removed-WellFormed, transferred-WellFormed, listed-WellFormed, Closes,
  Closes-WellFormed,
}
use nft101_rust.Nft.WellFormed.Traded.{
  voted-WellFormed, rebid-WellFormed, released-WellFormed, outbid-WellFormed,
}

module _ {O L F N : Type 0} (h : Host O L F N) (c : Config F) where
  sold-Closes :
      (o : ℕ) (b : Option Bid) (order : Order) (buyer : AccountId) (paid : L) (s : State L)
      → s.bids o ≡ b
      → order.order_id ≡ o
      → Closes s o order (released h o b (completed order buyer paid s))
  sold-Closes o none order buyer paid s e id = record {
    orders_eq = λ j. ground arith;
    nft_order_eq = λ n. refl;
    votes_eq = λ j. ground arith;
    bids_eq = λ j. ground arith;
    owners_eq = λ n ne. ground arith;
    nfts_eq = λ n. refl;
    next_nft_eq = refl;
    next_order_eq = refl;
    block_eq = refl;
  }
  sold-Closes o (some bid) order buyer paid s e id = record {
    orders_eq = λ j. ground arith;
    nft_order_eq = λ n. refl;
    votes_eq = λ j. ground arith;
    bids_eq = λ j. ground arith;
    owners_eq = λ n ne. ground arith;
    nfts_eq = λ n. refl;
    next_nft_eq = refl;
    next_order_eq = refl;
    block_eq = refl;
  }

  settled-Closes :
      (o : ℕ) (bid : Bid) (order : Order) (buyer : AccountId) (paid : L) (s : State L)
      → order.order_id ≡ o
      → Closes s o order (
          logged
            (Event.order_complete buyer o)
            (completed order buyer paid (released h o (some bid) s)))
  settled-Closes o bid order buyer paid s id = record {
    orders_eq = λ j. ground arith;
    nft_order_eq = λ n. refl;
    votes_eq = λ j. ground arith;
    bids_eq = λ j. ground arith;
    owners_eq = λ n ne. ground arith;
    nfts_eq = λ n. refl;
    next_nft_eq = refl;
    next_order_eq = refl;
    block_eq = refl;
  }

  cancelled-Closes :
      (o : ℕ) (order : Order) (s : State L)
      → s.bids o ≡ none
      → Closes s o order (cancelled h order o s)
  cancelled-Closes o order s e = record {
    orders_eq = λ j. ground arith;
    nft_order_eq = λ n. refl;
    votes_eq = λ j. ground arith;
    bids_eq = λ j. ground arith;
    owners_eq = λ n ne. ground arith;
    nfts_eq = λ n. refl;
    next_nft_eq = refl;
    next_order_eq = refl;
    block_eq = refl;
  }

  -- Every call keeps the invariant, also one that fails.
  pub dispatch-WellFormed :
      (origin : O) (call : Call) (s : State L)
      → WellFormed c s
      → After (WellFormed c) (dispatch h c origin call s)
  unfolding dispatch
  dispatch-WellFormed origin (create title url desc) s w =
      create_cases h c (After (WellFormed c)) origin s title url desc (λ e _. w)
        λ who sg room. created-WellFormed c who _ s w
  dispatch-WellFormed origin (remove n) s w =
      remove_cases h c (After (WellFormed c)) origin s n (λ e _. w)
        λ who nft sg found owner free. removed-WellFormed c _ who n s free w
  dispatch-WellFormed origin (transfer target n) s w =
      transfer_cases h c (After (WellFormed c)) origin s target n (λ e _. w)
        λ who nft sg found owner free. transferred-WellFormed c who target n s free w
  dispatch-WellFormed origin (order_sell n start_price end_price keep) s w =
      sell_cases h c (After (WellFormed c)) origin s n start_price end_price keep (λ e _. w)
        λ who g.
          listed-WellFormed c _ s refl refl (sym g.owned) (ap is_some g.exists.1) g.unlisted
            g.keep_ge g.keep_le g.price_ge g.price_le w
  dispatch-WellFormed origin (order_buy o price) s w =
      buy_cases h c (After (WellFormed c)) origin s o price (λ e _. w) (λ _ _ _ _ _ _ _. tt)
        (λ who order l paid g _ _ _.
          let good : GoodOrder c s o order = w.order_good o order g.found in
          Closes-WellFormed c s _ o order w g.found
            (sold-Closes o (s.bids o) order who paid s refl good.same_id))
        (λ who order l g less _.
          outbid-WellFormed h c o price (s.bids o) who l order s refl g.found g.start_le less w)
  dispatch-WellFormed origin (order_settlement o) s w =
      settlement_cases h c (After (WellFormed c)) origin s o (λ e _. w) (λ _ _ _ _ _ _ _ _ _. tt)
        (λ who order g _ e.
          Closes-WellFormed c s _ o order w g.found (cancelled-Closes o order s e))
        (λ who order bid _ g _ e _. released-WellFormed h c o (some bid) s e w)
        (λ who order bid l paid g _ _ _ _.
          let good : GoodOrder c s o order = w.order_good o order g.found in
          Closes-WellFormed c s _ o order w g.found
            (settled-Closes o bid order bid.owner paid s good.same_id))
  dispatch-WellFormed origin (vote_order o amount) s w =
      vote_cases h c (After (WellFormed c)) origin s o amount (λ e _. w)
        λ who order l g _ enough _ _.
          voted-WellFormed c o _ l order s g.found (record { same_id = refl; amount_ge = enough })
            (omega (arith, g.started)) w

  -- A step of the chain keeps the invariant.
  pub Step-WellFormed : (s t : State L) → Step h c s t → WellFormed c s → WellFormed c t
  Step-WellFormed s t (calls origin call e) w =
      ends_after (WellFormed c) _ t e (dispatch-WellFormed origin call s w)
  Step-WellFormed s t (next_block room e) w = rw e (record {
    order_good = λ o order q. ground (arith, w.order_good o order q);
    item_listed = w.item_listed;
    bid_good = w.bid_good;
    votes_open = w.votes_open;
    votes_good = w.votes_good;
    votes_timed = w.votes_timed;
    item_fresh = w.item_fresh;
  })
  Step-WellFormed s t (outside l same e) w =
      rw e (rebid-WellFormed c s.bids l s.events s w.bid_good w)

  genesis-WellFormed : (block : ℕ) (l : L) → WellFormed c (genesis c block l)
  genesis-WellFormed block l = record {
    order_good = λ o order q. cc;
    item_listed = λ n o q. cc;
    bid_good = λ o b q. cc;
    votes_open = λ o e. refl;
    votes_good = λ o. tt;
    votes_timed = λ o order e. tt;
    item_fresh = λ n e. cc;
  }

  -- In every state that a chain reaches, the storage agrees: every open order is listed under its
  -- item, which exists and belongs to the seller, and is within the limits of the configuration; every
  -- listed item has its open order; every bid is for an open order, at its start price or more and below
  -- its end price; votes are for open orders only, at least the smallest lock, with at most the order's
  -- time left; items are numbered below the next identifier.
  pub reach-WellFormed :
      (block : ℕ) (l : L) (t : State L) → Reach h c (genesis c block l) t → WellFormed c t
  reach-WellFormed block l t here = genesis-WellFormed block l
  reach-WellFormed block l t (next {t = u} r step) =
      Step-WellFormed u t step (reach-WellFormed block l u r)
