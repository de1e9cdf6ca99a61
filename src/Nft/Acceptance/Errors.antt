-- ===== src/Nft/Acceptance/Errors.antt =====
-- The errors that the calls of pallets/nft/src/lib.rs return, and what is then wrong.
use nft101_rust.Prelude.{◌≡◌, ap, subst, inr}
use nft101_rust.Frame.{Host}
use nft101_rust.Nft.Types.{State, Config, DispatchError, foreign}
use nft101_rust.Nft.Effects.{Outcome, failed}
use nft101_rust.Nft.Cases.{
  create_cases, remove_cases, transfer_cases, sell_cases, buy_cases, settlement_cases, vote_cases,
}
use nft101_rust.Nft.Reasons.{Reason}
use nft101_rust.Nft.Dispatch.{
  Call, create, remove, transfer, order_sell, order_buy, order_settlement, vote_order, dispatch,
}

-- The error in which a call ends, or the given one.
error_of : {L : Type 0} → DispatchError → Outcome L (Unit {0}) → DispatchError
error_of e (failed x t) = x
error_of e _ = e

module _ {O L F N : Type 0} (h : Host O L F N) (c : Config F) where
  -- Where a call can end, with a reason for its error.
  abbrev Explains : O → Call → State L → DispatchError → State L → Outcome L (Unit {0}) → Type 0
  Explains origin call s e t r = r ≡ failed e t → Reason h c origin s call e

  explained :
      (origin : O) (call : Call) (s t u : State L) (e x : DispatchError)
      → Reason h c origin s call x
      → Explains origin call s e t (failed x u)
  unfolding error_of
  explained origin call s t u e x why q = subst (Reason h c origin s call) (ap (error_of e) q) why

  -- A call that fails has a reason for its error.
  pub failed-Reason :
      (origin : O) (call : Call) (s t : State L) (e : DispatchError)
      → dispatch h c origin call s ≡ failed e t
      → Reason h c origin s call e
  unfolding dispatch
  failed-Reason origin (create title url desc) s t e =
      create_cases h c (Explains origin (create title url desc) s e t) origin s title url desc
        (λ x why q. explained origin (create title url desc) s t s e x why q)
        λ who sg room q. absurd (cc)
  failed-Reason origin (remove n) s t e =
      remove_cases h c (Explains origin (remove n) s e t) origin s n
        (λ x why q. explained origin (remove n) s t s e x why q)
        λ who nft sg found owner free q. absurd (cc)
  failed-Reason origin (transfer target n) s t e =
      transfer_cases h c (Explains origin (transfer target n) s e t) origin s target n
        (λ x why q. explained origin (transfer target n) s t s e x why q)
        λ who nft sg found owner free q. absurd (cc)
  failed-Reason origin (order_sell n start_price end_price keep) s t e =
      sell_cases h c (Explains origin (order_sell n start_price end_price keep) s e t) origin s n
        start_price end_price keep
        (λ x why q. explained origin (order_sell n start_price end_price keep) s t s e x why q)
        λ who g q. absurd (cc)
  failed-Reason origin (order_buy o price) s t e =
      buy_cases h c (Explains origin (order_buy o price) s e t) origin s o price
        (λ x why q. explained origin (order_buy o price) s t s e x why q)
        (λ who order l g le moved broke q. absurd (cc))
        (λ who order l paid g le moved shares q. absurd (cc))
        (λ who order l g lt locked q. absurd (cc))
  failed-Reason origin (order_settlement o) s t e =
      settlement_cases h c (Explains origin (order_settlement o) s e t) origin s o
        (λ x why q. explained origin (order_settlement o) s t s e x why q)
        (λ who order bid l on over there moved broke q. absurd (cc))
        (λ who order on over no_bid q. absurd (cc))
        (λ who order bid x on over there refuses q.
          explained origin (order_settlement o) s t _ e (foreign x)
            (inr (order, bid, on.found, there, refuses)) q)
        (λ who order bid l paid on over there moved shares q. absurd (cc))
  failed-Reason origin (vote_order o amount) s t e =
      vote_cases h c (Explains origin (vote_order o amount) s e t) origin s o amount
        (λ x why q. explained origin (vote_order o amount) s t s e x why q)
        λ who order l on running enough fits locked q. absurd (cc)
