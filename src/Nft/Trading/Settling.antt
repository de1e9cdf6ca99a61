-- ===== src/Nft/Trading/Settling.antt =====
-- How an auction of pallets/nft/src/lib.rs ends after its time.
use nft101_rust.Prelude.{
  ℕ, ◌+◌, ◌-◌, ◌*◌, ◌≤◌, ◌<◌, ◌≡◌, ◌≢◌, refl, none, some, [], ◌∷◌, ◌++◌, ◌⊎◌, inl, inr, update_self,
  arith, sym, ◌∙◌,
}
use nft101_rust.Frame.{AccountId, Host, Checked, accepted, refused}
use nft101_rust.Nft.Types.{State, Order, Bid, Config, Event, Error, module_error, foreign}
use nft101_rust.Nft.Effects.{done, failed}
use nft101_rust.Nft.States.{released, cancelled}
use nft101_rust.Nft.Calls.{order_complete}
use nft101_rust.Nft.Parts.{is_time_to_settlement, cancel, clean_order_bid}
use nft101_rust.Nft.Calls as Calls
use mathlib.Core.Option.{some-injective}
use nft101_rust.Prelude.{Bool-cases, ltb}
use nft101_rust.Nft.Backing.{Backed, votes_held}
use nft101_rust.Nft.Backing.Unlocking.{unlock_votes_exact, unreserve_exact}
use nft101_rust.Nft.Backing.States.{held_reserved}
use nft101_rust.Nft.Payout.Profit.{payout_bounded}
use nft101_rust.Nft.Acceptance.Exact.{dispatch-Accepted}
use nft101_rust.Nft.Cases.{complete_cases}
use nft101_rust.Nft.Dispatch.{order_buy, order_settlement, dispatch}
use nft101_rust.Nft.WellFormed.{WellFormed, GoodOrder}
use nft101_rust.Nft.Trading.{OnSuccess}

module _ {O L F N : Type 0} (h : Host O L F N) (c : Config F) where
  open h.currency use {free_balance, reserved_balance, transfer_moves}

  -- The cancellation of an order: it is gone, its item stays with the seller, and all that its voters had locked is free again.
  pub record IsCancelled (o : ℕ) (order : Order) (s t : State L) : Type 0 where
    pub closed : t.orders o ≡ none
    pub unlisted : t.nft_order order.nft_id ≡ none
    pub no_votes : t.votes o ≡ []
    pub no_bid : t.bids o ≡ none
    pub kept : t.nft_account order.nft_id ≡ order.owner
    pub unlocked :
        (a : AccountId)
        → reserved_balance a t.ledger + votes_held a (s.votes o) ≡ reserved_balance a s.ledger

  -- Of an order without a bid whose time has passed, any account can cause the cancellation: the settlement
  -- succeeds, whatever the ledger holds.
  pub expired_cancels :
      (origin : O) (who o : ℕ) (order : Order) (others : AccountId → ℕ) (s : State L)
      → h.ensure_signed origin ≡ accepted who
      → s.orders o ≡ some order
      → s.bids o ≡ none
      → order.create_block + order.keep_block_num < s.block_number
      → WellFormed c s
      → Backed h others s
      → (t : State L) × (dispatch h c origin (order_settlement o) s ≡ done tt t)
        × IsCancelled o order s t
  unfolding dispatch Calls.order_settlement is_time_to_settlement cancel
  expired_cancels origin who o order others s signer found no_bid over w b =
      let good : GoodOrder c s o order = w.order_good o order found in
      (
        cancelled h order o s,
        ground (arith, good.started),
        record {
          closed = update_self s.orders o none;
          unlisted = update_self s.nft_order order.nft_id none;
          no_votes = update_self s.votes o [];
          no_bid = no_bid;
          kept = good.owned;
          unlocked =
              unlock_votes_exact h (s.votes o) s.ledger
                (λ a. omega (arith, held_reserved h c others s a o b good.fresh));
        },
      )

  -- In a build with overflow checks, a sale to another account than the seller's leaves the seller with at least the price more
  -- than before, less the voters' part, `profit_rate * price`.
  pub sale_pays_seller :
      (order : Order) (buyer price settlement : ℕ) (s : State L) (rate : N)
      → Checked h.fixed
      → buyer ≢ order.owner
      → h.fixed.from_float c.profit_rate ≡ some rate
      → OnSuccess
          (λ t.
            (free_balance order.owner s.ledger + price - free_balance order.owner t.ledger)
              * h.fixed.scale
            ≤ h.fixed.raw rate * price)
          (order_complete h c order buyer price settlement s)
  sale_pays_seller order buyer price settlement s rate k ne re =
      complete_cases h c
        (OnSuccess (λ t.
          (free_balance order.owner s.ledger + price - free_balance order.owner t.ledger)
            * h.fixed.scale
          ≤ h.fixed.raw rate * price))
        order buyer price settlement s (λ _ _. tt) (λ _ _ _. tt)
        λ l paid moves pays.
          let income : free_balance order.owner l ≡ free_balance order.owner s.ledger + price =
            ground (arith, transfer_moves buyer order.owner price s.ledger l order.owner moves) in
          rw (← income)
            (payout_bounded h k c order price (s.votes order.order_id) l paid rate re pays)

  -- While an order is open, at any block either bids or the settlement are refused as out of time.
  pub bids_or_settles :
      (origin : O) (who o price : ℕ) (order : Order) (s : State L)
      → h.ensure_signed origin ≡ accepted who
      → s.orders o ≡ some order
      → order.create_block ≤ s.block_number
      → (dispatch h c origin (order_buy o price) s
          ≡ failed (module_error Error.is_time_to_settlement) s)
        ⊎ (dispatch h c origin (order_settlement o) s
            ≡ failed (module_error Error.is_not_time_to_settlement) s)
  unfolding dispatch Calls.order_buy Calls.order_settlement is_time_to_settlement
  bids_or_settles origin who o price order s signer found started =
      elim (Bool-cases (ltb order.keep_block_num (s.block_number - order.create_block))) [
        | inl over ↦ inl ground arith
        | inr running ↦ inr ground arith
      ]

  -- The state in which a settlement leaves a bid that its bidder cannot pay.
  pub record IsDropped (o : ℕ) (order : Order) (bid : Bid) (s t : State L) : Type 0 where
    pub open_still : t.orders o ≡ some order
    pub no_bid : t.bids o ≡ none
    pub same_votes : t.votes o ≡ s.votes o
    pub same_block : t.block_number ≡ s.block_number
    pub unreserved :
        reserved_balance bid.owner t.ledger + bid.price ≡ reserved_balance bid.owner s.ledger
    pub free_again : free_balance bid.owner t.ledger ≡ free_balance bid.owner s.ledger + bid.price

  -- If the payment of the best bid is refused at the settlement, the settlement fails, yet the bid is gone and the
  -- bidder's money is free again, while the order stays open.
  pub failed_settlement_drops :
      (origin : O) (who o : ℕ) (order : Order) (bid : Bid) (e : ℕ) (others : AccountId → ℕ)
      (s : State L)
      → h.ensure_signed origin ≡ accepted who
      → s.orders o ≡ some order
      → s.bids o ≡ some bid
      → order.create_block + order.keep_block_num < s.block_number
      → h.currency.transfer bid.owner order.owner bid.price
          (h.currency.unreserve bid.owner bid.price s.ledger)
        ≡ refused e
      → WellFormed c s
      → Backed h others s
      → (t : State L) × (dispatch h c origin (order_settlement o) s ≡ failed (foreign e) t)
        × IsDropped o order bid s t
  unfolding dispatch Calls.order_settlement is_time_to_settlement clean_order_bid order_complete
  failed_settlement_drops origin who o order bid e others s signer found best over unpaid w b =
      let good : GoodOrder c s o order = w.order_good o order found in
      let enough = held_reserved h c others s bid.owner o b good.fresh in
      (
        released h o (some bid) s,
        ground (arith, good.started),
        record {
          open_still = found;
          no_bid = update_self s.bids o none;
          same_votes = refl;
          same_block = refl;
          unreserved =
              ground (arith, unreserve_exact h bid.owner bid.price s.ledger bid.owner, enough);
          free_again =
              ground
                (arith, h.currency.unreserve_moves bid.owner bid.price s.ledger bid.owner, enough);
        },
      )

  -- A settlement that succeeds, from a well-formed state, on an order with a bid adds just the event of the sale, and
  -- adds it twice.
  pub settlement_events :
      (origin : O) (o : ℕ) (bid : Bid) (s t : State L)
      → WellFormed c s
      → s.bids o ≡ some bid
      → dispatch h c origin (order_settlement o) s ≡ done tt t
      → t.events
        ≡ (s.events ++ Event.order_complete bid.owner o ∷ [])
          ++ Event.order_complete bid.owner o ∷ []
  settlement_events origin o bid s t w best e =
      let (who, order, on, over, way) =
        (dispatch-Accepted h c origin (order_settlement o) s t).0 e in
      elim way [
        | inl (none_there, _) ↦ absurd (cc)
        | inr (first, there, (sale, (l, paid, moved, shares, q), r)) ↦
            let same : first ≡ bid = some-injective _ _ (sym there ∙ best) in
            rw (r, q, same, (w.order_good o order on.found).same_id) refl
      ]
