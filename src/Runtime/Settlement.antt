-- ===== src/Runtime/Settlement.antt =====
-- The settlement of an auction under the constants of runtime/src/lib.rs.
use mathlib.Core.Option.{some-injective}
use nft101_rust.Prelude.{
  ℕ, ◌+◌, ◌*◌, ◌^◌, ◌≤◌, ◌<◌, ◌≡◌, ◌≢◌, some, List, [], ◌∷◌, All, arith, sym, ◌∙◌, subst,
}
use nft101_rust.Frame.{AccountId, Host, Checked, accepted}
use nft101_rust.Nft.Types.{State, Order, Bid, Vote}
use nft101_rust.Nft.Effects.{done, panicked}
use nft101_rust.Nft.Payout.Within.{pledged}
use nft101_rust.Nft.Dispatch.{dispatch, order_settlement, Reach, genesis}
use nft101_rust.Nft.Trading.Selling.{IsSold, settlement_sells, settlement_panics}
use nft101_rust.Nft.WellFormed.{WellFormed, GoodOrder, GoodVote, InTime}
use nft101_rust.Nft.WellFormed.Always.{reach-WellFormed}
use nft101_rust.Runtime.{runtime_config, dollars}
use nft101_rust.Runtime.Prices.{fifth_raw}
use nft101_rust.Runtime.Sales.{OnTime, sale_returns, dear_sale_panics}

-- A vote that was cast before the last block of its auction.
abbrev pub BeforeEnd : Vote → Type 0
BeforeEnd v = 1 ≤ v.keep_block_num

module _ {O L F N : Type 0} (h : Host O L F N) (rate : F) (default_account : AccountId) where
  all-OnTime :
      (order : Order) (o : ℕ) (votes : List Vote)
      → All (GoodVote (runtime_config rate default_account) o) votes
      → All (InTime order) votes
      → All BeforeEnd votes
      → All (OnTime order) votes
  unfolding runtime_config
  all-OnTime order o [] good timed early = tt
  all-OnTime order o (v ∷ vs) good timed early = (
    record { amount_ge = good.0.amount_ge; left_ge = early.0; left_le = timed.0 },
    all-OnTime order o vs good.1 timed.1 early.1,
  )

  -- A bid is a dollar or more.
  bid_dear :
      (order : Order) (bid : Bid) (o : ℕ) (s : State L)
      → WellFormed (runtime_config rate default_account) s
      → GoodOrder (runtime_config rate default_account) s o order
      → s.orders o ≡ some order
      → s.bids o ≡ some bid
      → dollars ≤ bid.price
  unfolding runtime_config
  bid_dear order bid o s w good found best =
      let (other, there, _, least, _) = w.bid_good o bid best in
      let same : other ≡ order = some-injective _ _ (sym there ∙ found) in
      omega (arith, good.price_ge, subst (λ (x : Order). x.start_price ≤ bid.price) same least)

  -- With the constants of the runtime, in every state that the chain reaches: if the time of an order has passed, its
  -- best bid is at most 50 dollars and can be paid, no vote on it was cast in the last block, and the votes
  -- lock at most 9 * 10^18 in all, then any account that asks for the settlement gets it, and the item is the bidder's.
  pub settlement_completes :
      (r : N) (origin : O) (who o now : ℕ) (order : Order) (bid : Bid) (l0 l : L) (s : State L)
      → h.fixed.from_float rate ≡ some r
      → h.fixed.raw r ≡ fifth_raw
      → Reach h
          (runtime_config rate default_account)
          (genesis (runtime_config rate default_account) now l0)
          s
      → h.ensure_signed origin ≡ accepted who
      → s.orders o ≡ some order
      → s.bids o ≡ some bid
      → order.create_block + order.keep_block_num < s.block_number
      → h.currency.transfer bid.owner order.owner bid.price
          (h.currency.unreserve bid.owner bid.price s.ledger)
        ≡ accepted l
      → bid.price ≤ 50 * dollars
      → All BeforeEnd (s.votes o)
      → pledged (s.votes o) ≤ 9 * 10 ^ 18
      → (t : State L) × (dispatch h
            (runtime_config rate default_account)
            origin
            (order_settlement o)
            s
          ≡ done tt t)
        × IsSold o order bid.owner t
  unfolding runtime_config
  settlement_completes r origin who o now order bid l0 l s rate_eq r_raw reach signer found best
        over pays cheap early small =
      let w : WellFormed (runtime_config rate default_account) s =
        reach-WellFormed h (runtime_config rate default_account) now l0 s reach in
      let good : GoodOrder (runtime_config rate default_account) s o order =
        w.order_good o order found in
      let timed =
        all-OnTime order o (s.votes o) (w.votes_good o) (w.votes_timed o order found) early in
      let price_ge : dollars ≤ bid.price = bid_dear order bid o s w good found best in
      let (paid, e) =
        sale_returns h rate default_account r rate_eq r_raw order bid.price (s.votes o) l
          good.keep_ge good.keep_le price_ge cheap timed small in
      settlement_sells h (runtime_config rate default_account) origin who o order bid l paid s
        good.same_id good.started signer found best over pays e

  -- In a build with overflow checks and with the constants of the runtime, in every state that the chain reaches: if the
  -- time of an order with a vote has passed, and its best bid is 5,100 dollars or more, below 2^128, and
  -- can be paid, the settlement panics.
  pub dear_settlement_panics :
      (r : N) (origin : O) (who o now : ℕ) (order : Order) (bid : Bid) (l0 l : L) (s : State L)
      → Checked h.fixed
      → h.fixed.from_float rate ≡ some r
      → h.fixed.raw r ≡ fifth_raw
      → Reach h
          (runtime_config rate default_account)
          (genesis (runtime_config rate default_account) now l0)
          s
      → h.ensure_signed origin ≡ accepted who
      → s.orders o ≡ some order
      → s.bids o ≡ some bid
      → order.create_block + order.keep_block_num < s.block_number
      → h.currency.transfer bid.owner order.owner bid.price
          (h.currency.unreserve bid.owner bid.price s.ledger)
        ≡ accepted l
      → 5100 * dollars ≤ bid.price
      → bid.price < 2 ^ 128
      → s.votes o ≢ []
      → dispatch h (runtime_config rate default_account) origin (order_settlement o) s ≡ panicked
  unfolding runtime_config
  dear_settlement_panics r origin who o now order bid l0 l s k rate_eq r_raw reach signer found best
        over pays dear fits voted =
      let w : WellFormed (runtime_config rate default_account) s =
        reach-WellFormed h (runtime_config rate default_account) now l0 s reach in
      let good : GoodOrder (runtime_config rate default_account) s o order =
        w.order_good o order found in
      settlement_panics h (runtime_config rate default_account) origin who o order bid l s
        good.same_id good.started signer found best over pays
        (dear_sale_panics h rate default_account r rate_eq r_raw order bid.price (s.votes o) l k
          good.keep_le dear fits voted)
