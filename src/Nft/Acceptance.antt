-- ===== src/Nft/Acceptance.antt =====
-- When the calls of pallets/nft/src/lib.rs are accepted, and in which state: as a relation, which does
-- not run them.
mod Checks
mod Accepts
mod Bids
pub mod Exact
mod Errors
pub mod Outcomes
use nft101_rust.Prelude.{ℕ, ◌+◌, ◌-◌, ◌≤◌, ◌<◌, ◌≡◌, ◌⊎◌, Option, none, some}
use nft101_rust.Frame.{AccountId, Host, accepted}
use nft101_rust.Nft.Types.{State, Nft, Order, Bid, Config, Event}
use nft101_rust.Nft.Payout.{algorithm}
use nft101_rust.Nft.Dispatch.{
  Call, create, remove, transfer, order_sell, order_buy, order_settlement, vote_order,
}
use nft101_rust.Nft.States.{
  created, removed, transferred, listed, completed, voted, released, outbid, cancelled, logged,
}
use nft101_rust.Nft.Guards.{OnOrder, SellGuards, BuyGuards, new_order}

-- The caller has the item, which is not listed.
pub record OwnsFree {O L F N : Type 0} (h : Host O L F N) (origin : O) (s : State L) (n : ℕ)
    (who : AccountId) : Type 0 where
  pub signer : h.ensure_signed origin ≡ accepted who
  pub exists : (nft : Nft) × (s.nfts n ≡ some nft)
  pub owned : s.nft_account n ≡ who
  pub unlisted : s.nft_order n ≡ none

module _ {O L F N : Type 0} (h : Host O L F N) (c : Config F) where
  -- The order is sold to the buyer, and `t` is the state after the sale from `s`.
  abbrev pub SoldTo : Order → AccountId → ℕ → State L → State L → Type 0
  SoldTo order buyer price s t =
      (l : L) × (paid : L) × (h.currency.transfer buyer order.owner price s.ledger ≡ accepted l)
      × (algorithm h c order price (s.votes order.order_id) l ≡ some paid)
      × (t ≡ completed order buyer paid s)

  -- A call takes `s` to `t`.
  abbrev pub Accepted : O → Call → State L → State L → Type 0
  Accepted origin (create title url desc) s t =
      (who : AccountId) × (h.ensure_signed origin ≡ accepted who)
      × (s.next_nft_id + 1 ≤ c.max_nft_id)
      × (t ≡ created who (record { title = title; url = url; desc = desc }) s)
  Accepted origin (remove n) s t =
      (who : AccountId) × OwnsFree h origin s n who × (t ≡ removed c.default_account who n s)
  Accepted origin (transfer target n) s t =
      (who : AccountId) × OwnsFree h origin s n who × (t ≡ transferred who target n s)
  Accepted origin (order_sell n start_price end_price keep) s t =
      (who : AccountId) × SellGuards h c origin s who (new_order who n start_price end_price keep s)
      × (t ≡ listed (new_order who n start_price end_price keep s) s)
  Accepted origin (order_buy o price) s t =
      (who : AccountId) × (order : Order) × BuyGuards h c origin s o price who order
      × (((order.end_price ≤ price)
            × ((sale : State L) × SoldTo order who order.end_price s sale
                × (t ≡ released h o (s.bids o) sale)))
          ⊎ ((price < order.end_price)
              × ((l : L) × (h.currency.reserve who price s.ledger ≡ accepted l)
                  × (t
                      ≡ outbid h o (s.bids o) (record { order_id = o; price = price; owner = who })
                          l s))))
  Accepted origin (order_settlement o) s t =
      (who : AccountId) × (order : Order) × OnOrder h origin s o who order
      × (order.keep_block_num < s.block_number - order.create_block)
      × (((s.bids o ≡ none) × (t ≡ cancelled h order o s))
          ⊎ ((bid : Bid) × (s.bids o ≡ some bid)
              × ((sale : State L) × SoldTo order bid.owner bid.price (released h o (some bid) s)
                    sale
                  × (t ≡ logged (Event.order_complete bid.owner o) sale))))
  Accepted origin (vote_order o amount) s t =
      (who : AccountId) × (order : Order) × OnOrder h origin s o who order
      × (s.block_number - order.create_block ≤ order.keep_block_num)
      × (c.minimum_voting_lock ≤ amount)
      × (order.create_block + order.keep_block_num ≤ c.max_block_number)
      × ((l : L) × (h.currency.reserve who amount s.ledger ≡ accepted l)
          × (t
              ≡ voted o
                  (record {
                    order_id = o;
                    amount = amount;
                    keep_block_num = order.create_block + order.keep_block_num - s.block_number;
                    owner = who;
                  })
                  l s))

  -- The payout of the sale to the buyer panics, after the payment.
  abbrev pub Unpaid : Order → AccountId → ℕ → State L → Type 0
  Unpaid order buyer price s =
      (l : L) × (h.currency.transfer buyer order.owner price s.ledger ≡ accepted l)
      × (algorithm h c order price (s.votes order.order_id) l ≡ none)

  -- A call panics.
  abbrev pub Panics : O → Call → State L → Type 0
  Panics origin (order_buy o price) s =
      (who : AccountId) × (order : Order) × BuyGuards h c origin s o price who order
      × (order.end_price ≤ price)
      × Unpaid order who order.end_price s
  Panics origin (order_settlement o) s =
      (who : AccountId) × (order : Order) × (bid : Bid) × OnOrder h origin s o who order
      × (order.keep_block_num < s.block_number - order.create_block)
      × (s.bids o ≡ some bid)
      × Unpaid order bid.owner bid.price (released h o (some bid) s)
  Panics origin _ s = ⊥
