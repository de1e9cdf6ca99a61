-- ===== src/Nft/Acceptance/Bids.antt =====
-- Bids for an order of pallets/nft/src/lib.rs succeed where they are accepted.
use nft101_rust.Prelude.{ℕ, ◌-◌, ◌≤◌, ◌<◌, ◌≡◌, refl, ◌∙◌, Option, none, some, leb, if◌then◌else◌}
use nft101_rust.Frame.{AccountId, Host, accepted}
use nft101_rust.Nft.Types.{State, Order, Bid, Config}
use nft101_rust.Nft.Effects.{done, ◌>>=◌, ◌>>◌, M}
use nft101_rust.Nft.Parts.{
  is_time_to_settlement, clean_order_bid, place_bid, ensure_outbids, release_bid,
}
use nft101_rust.Nft.Payout.{algorithm}
use nft101_rust.Nft.Calls as Calls
use nft101_rust.Nft.Guards.{BuyGuards, Outbids}
use nft101_rust.Nft.States.{completed, released, outbid}
use nft101_rust.Nft.Acceptance.Checks.{le→leb, lt→leb, lt→ltb, le→ltb, le→checked_sub}

module _ {O L F N : Type 0} (h : Host O L F N) (c : Config F) (origin : O) (s : State L) where
  Outbids-accepts :
      (b : Option Bid) (price : ℕ) (k : Unit {0} → M L (Unit {0}))
      → Outbids b price
      → (ensure_outbids b price >>= k) s ≡ k tt s
  Outbids-accepts none price k g = refl
  Outbids-accepts (some bid) price k g = rw (lt→ltb bid.price price g) refl

  release_accepts :
      (o : ℕ) (b : Option Bid) (t : State L) → release_bid h o b t ≡ done tt (released h o b t)
  release_accepts o none t = refl
  release_accepts o (some bid) t = refl

  -- The checks of a bid pass.
  pub buy_checks :
      (o price : ℕ) (who : AccountId) (order : Order)
      → BuyGuards h c origin s o price who order
      → Calls.order_buy h c origin o price s
        ≡ (if leb order.end_price price
              then Calls.order_complete h c order who order.end_price who >> clean_order_bid h o
              else place_bid h who o price)
            s
  unfolding Calls.order_buy is_time_to_settlement
  buy_checks o price who order g =
      rw
        (
          g.signer,
          g.found,
          le→checked_sub s.block_number order.create_block g.started,
          le→ltb order.keep_block_num (s.block_number - order.create_block) g.running,
          le→leb c.minimum_price price g.price_ge,
          le→leb order.start_price price g.start_le,
        )
        (Outbids-accepts (s.bids o) price _ g.outbids)

  pub sold_accepts :
      (o price : ℕ) (who : AccountId) (order : Order) (l paid : L)
      → BuyGuards h c origin s o price who order
      → order.end_price ≤ price
      → h.currency.transfer who order.owner order.end_price s.ledger ≡ accepted l
      → algorithm h c order order.end_price (s.votes order.order_id) l ≡ some paid
      → Calls.order_buy h c origin o price s
        ≡ done tt (released h o (s.bids o) (completed order who paid s))
  unfolding Calls.order_complete clean_order_bid
  sold_accepts o price who order l paid g le moved shares =
      buy_checks o price who order g
      ∙ rw (le→leb order.end_price price le, moved, shares)
          (release_accepts o (s.bids o) (completed order who paid s))

  pub bid_accepts :
      (o price : ℕ) (who : AccountId) (order : Order) (l : L)
      → BuyGuards h c origin s o price who order
      → price < order.end_price
      → h.currency.reserve who price s.ledger ≡ accepted l
      → Calls.order_buy h c origin o price s
        ≡ done tt (outbid h o (s.bids o) (record { order_id = o; price = price; owner = who }) l s)
  unfolding place_bid clean_order_bid
  bid_accepts o price who order l g lt locked =
      buy_checks o price who order g
      ∙ rw
          (
            lt→leb order.end_price price lt,
            locked,
            release_accepts o (s.bids o) (record s { ledger = l }),
          )
          refl
