-- ===== src/Nft/Acceptance/Outcomes.antt =====
-- When the calls of pallets/nft/src/lib.rs panic, and how they end in all.
use nft101_rust.Prelude.{◌-◌, ◌≡◌, ◌∙◌, refl}
use mathlib.Core.Logic.{◌↔◌}
use nft101_rust.Frame.{Host}
use nft101_rust.Nft.Types.{State, Config, DispatchError}
use nft101_rust.Nft.Effects.{done, failed, panicked}
use nft101_rust.Nft.Parts.{is_time_to_settlement, clean_order_bid}
use nft101_rust.Nft.Calls as Calls
use nft101_rust.Nft.Cases.{
  create_cases, remove_cases, transfer_cases, sell_cases, buy_cases, settlement_cases, vote_cases,
}
use nft101_rust.Nft.Dispatch.{
  Call, create, remove, transfer, order_sell, order_buy, order_settlement, vote_order, dispatch,
}
use nft101_rust.Nft.Acceptance.{Accepted, Panics}
use nft101_rust.Nft.Acceptance.Checks.{le→leb, lt→ltb, le→checked_sub}
use nft101_rust.Nft.Acceptance.Bids.{buy_checks}
use nft101_rust.Nft.Acceptance.Exact.{dispatch-Accepted}
use nft101_rust.Nft.Acceptance.Errors.{failed-Reason}
use nft101_rust.Nft.Reasons.{Reason}

module _ {O L F N : Type 0} (h : Host O L F N) (c : Config F) where
  -- A call that panics has made a payment without a payout.
  panicked-Panics :
      (origin : O) (call : Call) (s : State L)
      → dispatch h c origin call s ≡ panicked
      → Panics h c origin call s
  unfolding dispatch
  panicked-Panics origin (create title url desc) s =
      create_cases h c (λ r. r ≡ panicked → ⊥) origin s title url desc (λ e _ q. cc)
        λ who sg room q. cc
  panicked-Panics origin (remove n) s =
      remove_cases h c (λ r. r ≡ panicked → ⊥) origin s n (λ e _ q. cc)
        λ who nft sg found owner free q. cc
  panicked-Panics origin (transfer target n) s =
      transfer_cases h c (λ r. r ≡ panicked → ⊥) origin s target n (λ e _ q. cc)
        λ who nft sg found owner free q. cc
  panicked-Panics origin (order_sell n start_price end_price keep) s =
      sell_cases h c (λ r. r ≡ panicked → ⊥) origin s n start_price end_price keep (λ e _ q. cc)
        λ who g q. cc
  panicked-Panics origin (order_buy o price) s =
      buy_cases h c (λ r. r ≡ panicked → Panics h c origin (order_buy o price) s) origin s o price
        (λ e _ q. absurd (cc))
        (λ who order l g le moved broke q. (who, order, g, le, (l, moved, broke)))
        (λ who order l paid g le moved shares q. absurd (cc))
        (λ who order l g lt locked q. absurd (cc))
  panicked-Panics origin (order_settlement o) s =
      settlement_cases h c (λ r. r ≡ panicked → Panics h c origin (order_settlement o) s) origin s o
        (λ e _ q. absurd (cc))
        (λ who order bid l on over there moved broke q.
          (who, order, bid, on, over, there, (l, moved, broke)))
        (λ who order on over no_bid q. absurd (cc))
        (λ who order bid e on over there _ q. absurd (cc))
        (λ who order bid l paid on over there moved shares q. absurd (cc))
  panicked-Panics origin (vote_order o amount) s =
      vote_cases h c (λ r. r ≡ panicked → ⊥) origin s o amount (λ e _ q. cc)
        λ who order l on running enough fits locked q. cc

  pub Panics-panicked :
      (origin : O) (call : Call) (s : State L)
      → Panics h c origin call s
      → dispatch h c origin call s ≡ panicked
  unfolding dispatch Calls.order_settlement is_time_to_settlement clean_order_bid
      Calls.order_complete
  Panics-panicked origin (create _ _ _) s p = absurd p
  Panics-panicked origin (remove _) s p = absurd p
  Panics-panicked origin (transfer _ _) s p = absurd p
  Panics-panicked origin (order_sell _ _ _ _) s p = absurd p
  Panics-panicked origin (vote_order _ _) s p = absurd p
  Panics-panicked origin (order_buy o price) s (who, order, g, le, (l, moved, broke)) =
      buy_checks h c origin s o price who order g
      ∙ rw (le→leb order.end_price price le, moved, broke) refl
  Panics-panicked origin (order_settlement o) s
        (who, order, bid, on, over, there, (l, moved, broke)) =
      rw
        (
          on.signer,
          on.found,
          le→checked_sub s.block_number order.create_block on.started,
          lt→ltb order.keep_block_num (s.block_number - order.create_block) over,
          there,
          there,
          moved,
          broke,
        )
        refl

  -- A call succeeds, and in which state, just as it is accepted: an item is created by any account while
  -- identifiers are left; it is removed, transferred and offered only by its owner while it is not listed;
  -- an order is bid for and voted on until its time has passed, and settled from then on; the conditions
  -- on prices, times and amounts hold, the ledger takes the transfer or the reservation that the call
  -- needs, and a sale needs a payout that returns. No other condition prevents a call from succeeding.
  -- And a call panics just if it is a sale whose payment is made and whose payout panics.
  -- And an error that a call returns is one of those that it can return, and tells what is wrong: the
  -- caller is not signed, the ledger has refused the payment or the reservation, or the condition that
  -- the error names is not met.
  pub dispatch_outcomes :
      (origin : O) (call : Call) (s : State L)
      → ((t : State L) → (dispatch h c origin call s ≡ done tt t) ↔ Accepted h c origin call s t)
        × ((dispatch h c origin call s ≡ panicked) ↔ Panics h c origin call s)
        × ((e : DispatchError) (t : State L)
            → dispatch h c origin call s ≡ failed e t
            → Reason h c origin s call e)
  dispatch_outcomes origin call s = (
    λ t. dispatch-Accepted h c origin call s t,
    (panicked-Panics origin call s, Panics-panicked origin call s),
    λ e t q. failed-Reason h c origin call s t e q,
  )
