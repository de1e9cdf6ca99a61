-- ===== src/Nft/Trading/Listing.antt =====
-- What `order_sell` of pallets/nft/src/lib.rs achieves.
use nft101_rust.Prelude.{
  ℕ, ◌+◌, ◌≤◌, ◌≡◌, ◌≢◌, refl, is_some, true, none, some, Option-cases, inl, inr, [], ap,
  update_self, update_ne, arith,
}
use nft101_rust.Frame.{Host, accepted}
use nft101_rust.Nft.Types.{State, Config}
use nft101_rust.Nft.Guards.{new_order}
use nft101_rust.Nft.Cases.{sell_cases}
use nft101_rust.Nft.Dispatch.{order_sell, dispatch}
use nft101_rust.Nft.WellFormed.{WellFormed}
use nft101_rust.Nft.Trading.{OnSuccess}

module _ {O L F N : Type 0} (h : Host O L F N) (c : Config F) where
  -- No order, and so no bid, has the next identifier yet.
  next_order-none : (s : State L) → WellFormed c s → s.orders s.next_order_id ≡ none
  next_order-none s w = elim (Option-cases (s.orders s.next_order_id)) [
    | inl e ↦ e
    | inr (order, e) ↦ absurd (omega (arith, (w.order_good s.next_order_id order e).fresh))
  ]

  next_bid-none : (s : State L) → WellFormed c s → s.bids s.next_order_id ≡ none
  next_bid-none s w = elim (Option-cases (s.bids s.next_order_id)) [
    | inl e ↦ e
    | inr (bid, e) ↦
        let (order, found, _, _, _) = w.bid_good s.next_order_id bid e in
        cc (next_order-none s w, found)
  ]

  -- The item of the caller is on sale under a new identifier, for the prices and the time that were asked for; all else
  -- stays.
  pub record Listed (who n start_price end_price keep : ℕ) (s t : State L) : Type 0 where
    pub owned : s.nft_account n ≡ who
    pub exists : is_some (s.nfts n) ≡ true
    pub was_free : s.nft_order n ≡ none
    pub keep_ge : c.min_keep_block_number ≤ keep
    pub keep_le : keep ≤ c.max_keep_block_number
    pub price_ge : c.minimum_price ≤ start_price
    pub price_le : start_price ≤ end_price
    pub fresh : s.orders s.next_order_id ≡ none
    pub opened :
        t.orders s.next_order_id
        ≡ some (record {
          order_id = s.next_order_id;
          start_price = start_price;
          end_price = end_price;
          nft_id = n;
          create_block = s.block_number;
          keep_block_num = keep;
          owner = who;
        })
    pub listed_as : t.nft_order n ≡ some s.next_order_id
    pub no_bid : t.bids s.next_order_id ≡ none
    pub no_votes : t.votes s.next_order_id ≡ []
    pub next_id : t.next_order_id ≡ s.next_order_id + 1
    pub other_orders : (o : ℕ) → o ≢ s.next_order_id → t.orders o ≡ s.orders o
    pub other_votes : (o : ℕ) → o ≢ s.next_order_id → t.votes o ≡ s.votes o
    pub other_items : (m : ℕ) → m ≢ n → t.nft_order m ≡ s.nft_order m
    pub same_bids : t.bids ≡ s.bids
    pub same_holders : t.nft_account ≡ s.nft_account
    pub same_ledger : t.ledger ≡ s.ledger

  -- In a well-formed state, a sale that is accepted puts a free item of the caller up under an identifier that no order
  -- has, within the limits of the configuration, without bids and votes; no other order, vote or
  -- listing changes, and no item or money moves.
  pub sell_outcome :
      (origin : O) (who n start_price end_price keep : ℕ) (s : State L)
      → h.ensure_signed origin ≡ accepted who
      → WellFormed c s
      → OnSuccess
          (Listed who n start_price end_price keep s)
          (dispatch h c origin (order_sell n start_price end_price keep) s)
  unfolding dispatch
  sell_outcome origin who n start_price end_price keep s signer w =
      sell_cases h c (OnSuccess (Listed who n start_price end_price keep s)) origin s n start_price
        end_price keep (λ e _. tt)
        λ seller g.
          let me : seller ≡ who = ground (arith, g.signer) in
          record {
            owned = cc (g.owned, me);
            exists = ap is_some g.exists.1;
            was_free = g.unlisted;
            keep_ge = g.keep_ge;
            keep_le = g.keep_le;
            price_ge = g.price_ge;
            price_le = g.price_le;
            fresh = next_order-none s w;
            opened = rw (← me) (
                update_self s.orders s.next_order_id
                  (some (new_order seller n start_price end_price keep s)));
            listed_as = update_self s.nft_order n (some s.next_order_id);
            no_bid = next_bid-none s w;
            no_votes = update_self s.votes s.next_order_id [];
            next_id = refl;
            other_orders = λ o ne. update_ne s.orders s.next_order_id _ o ne;
            other_votes = λ o ne. update_ne s.votes s.next_order_id [] o ne;
            other_items = λ m ne. update_ne s.nft_order n _ m ne;
            same_bids = refl;
            same_holders = refl;
            same_ledger = refl;
          }
