-- ===== src/Nft/Acceptance/Exact.antt =====
-- The calls of pallets/nft/src/lib.rs succeed just where they are accepted.
use nft101_rust.Prelude.{◌≡◌, refl, sym, ap, ◌∙◌, inl, inr, some}
use mathlib.Core.Logic.{◌↔◌}
use nft101_rust.Frame.{Host}
use nft101_rust.Nft.Types.{State, Config, Event}
use nft101_rust.Nft.Effects.{Outcome, done}
use nft101_rust.Nft.Cases.{
  create_cases, remove_cases, transfer_cases, sell_cases, buy_cases, settlement_cases, vote_cases,
}
use nft101_rust.Nft.Dispatch.{
  Call, create, remove, transfer, order_sell, order_buy, order_settlement, vote_order, dispatch,
}
use nft101_rust.Nft.States.{completed, released, logged}
use nft101_rust.Nft.Acceptance.{Accepted}
use nft101_rust.Nft.Acceptance.Accepts.{
  create_accepts, remove_accepts, transfer_accepts, sell_accepts, vote_accepts, cancel_accepts,
  settlement_accepts,
}
use nft101_rust.Nft.Acceptance.Bids.{sold_accepts, bid_accepts}

final : {L : Type 0} → State L → Outcome L (Unit {0}) → State L
final s (done _ t) = t
final s _ = s

done-injective : {L : Type 0} (s t : State L) → done tt s ≡ done tt t → t ≡ s
unfolding final
done-injective s t e = sym (ap (final s) e)

module _ {O L F N : Type 0} (h : Host O L F N) (c : Config F) where
  -- A call that succeeds was accepted.
  succeeded-Accepted :
      (origin : O) (call : Call) (s t : State L)
      → dispatch h c origin call s ≡ done tt t
      → Accepted h c origin call s t
  unfolding dispatch
  succeeded-Accepted origin (create title url desc) s t =
      create_cases h c (λ r. r ≡ done tt t → Accepted h c origin (create title url desc) s t) origin
        s title url desc (λ e _ q. absurd (cc))
        λ who sg room q. (who, sg, room, done-injective _ t q)
  succeeded-Accepted origin (remove n) s t =
      remove_cases h c (λ r. r ≡ done tt t → Accepted h c origin (remove n) s t) origin s n
        (λ e _ q. absurd (cc))
        λ who nft sg found owner free q. (
          who,
          record { signer = sg; exists = (nft, found); owned = owner; unlisted = free },
          done-injective _ t q,
        )
  succeeded-Accepted origin (transfer target n) s t =
      transfer_cases h c (λ r. r ≡ done tt t → Accepted h c origin (transfer target n) s t) origin s
        target n (λ e _ q. absurd (cc))
        λ who nft sg found owner free q. (
          who,
          record { signer = sg; exists = (nft, found); owned = owner; unlisted = free },
          done-injective _ t q,
        )
  succeeded-Accepted origin (order_sell n start_price end_price keep) s t =
      sell_cases h c
        (λ r. r ≡ done tt t → Accepted h c origin (order_sell n start_price end_price keep) s t)
        origin s n start_price end_price keep (λ e _ q. absurd (cc))
        λ who g q. (who, g, done-injective _ t q)
  succeeded-Accepted origin (order_buy o price) s t =
      buy_cases h c (λ r. r ≡ done tt t → Accepted h c origin (order_buy o price) s t) origin s o
        price (λ e _ q. absurd (cc)) (λ _ _ _ _ _ _ _ q. absurd (cc))
        (λ who order l paid g le moved shares q. (
          who,
          order,
          g,
          inl (
            le,
            (completed order who paid s, (l, paid, moved, shares, refl), done-injective _ t q),
          ),
        ))
        (λ who order l g lt locked q. (who, order, g, inr (lt, (l, locked, done-injective _ t q))))
  succeeded-Accepted origin (order_settlement o) s t =
      settlement_cases h c (λ r. r ≡ done tt t → Accepted h c origin (order_settlement o) s t)
        origin s o (λ e _ q. absurd (cc)) (λ _ _ _ _ _ _ _ _ _ q. absurd (cc))
        (λ who order on over no_bid q. (who, order, on, over, inl (no_bid, done-injective _ t q)))
        (λ who order bid e on over has_bid _ q. absurd (cc))
        (λ who order bid l paid on over has_bid moved shares q. (
          who,
          order,
          on,
          over,
          inr (
            bid,
            has_bid,
            (
              completed order bid.owner paid (released h o (some bid) s),
              (l, paid, moved, shares, refl),
              done-injective _ t q,
            ),
          ),
        ))
  succeeded-Accepted origin (vote_order o amount) s t =
      vote_cases h c (λ r. r ≡ done tt t → Accepted h c origin (vote_order o amount) s t) origin s o
        amount (λ e _ q. absurd (cc))
        λ who order l on running enough fits locked q.
          (who, order, on, running, enough, fits, (l, locked, done-injective _ t q))

  Accepted-succeeds :
      (origin : O) (call : Call) (s t : State L)
      → Accepted h c origin call s t
      → dispatch h c origin call s ≡ done tt t
  unfolding dispatch
  Accepted-succeeds origin (create title url desc) s t (who, sg, room, e) =
      create_accepts h c origin s title url desc who sg room ∙ ap (done tt) (sym e)
  Accepted-succeeds origin (remove n) s t (who, g, e) =
      remove_accepts h c origin s n who g ∙ ap (done tt) (sym e)
  Accepted-succeeds origin (transfer target n) s t (who, g, e) =
      transfer_accepts h c origin s target n who g ∙ ap (done tt) (sym e)
  Accepted-succeeds origin (order_sell n start_price end_price keep) s t (who, g, e) =
      sell_accepts h c origin s n start_price end_price keep who g ∙ ap (done tt) (sym e)
  Accepted-succeeds origin (order_buy o price) s t
        (who, order, g, inl (le, (sale, (l, paid, moved, shares, q), e))) =
      sold_accepts h c origin s o price who order l paid g le moved shares
      ∙ ap (λ u. done tt (released h o (s.bids o) u)) (sym q)
      ∙ ap (done tt) (sym e)
  Accepted-succeeds origin (order_buy o price) s t (who, order, g, inr (lt, (l, locked, e))) =
      bid_accepts h c origin s o price who order l g lt locked ∙ ap (done tt) (sym e)
  Accepted-succeeds origin (order_settlement o) s t (who, order, on, over, inl (no_bid, e)) =
      cancel_accepts h c origin s o who order on over no_bid ∙ ap (done tt) (sym e)
  Accepted-succeeds origin (order_settlement o) s t
        (who, order, on, over, inr (bid, has_bid, (sale, (l, paid, moved, shares, q), e))) =
      settlement_accepts h c origin s o who order bid l paid on over has_bid moved shares
      ∙ ap (λ u. done tt (logged (Event.order_complete bid.owner o) u)) (sym q)
      ∙ ap (done tt) (sym e)
  Accepted-succeeds origin (vote_order o amount) s t
        (who, order, on, running, enough, fits, (l, locked, e)) =
      vote_accepts h c origin s o amount who order l on running enough fits locked
      ∙ ap (done tt) (sym e)

  -- A call succeeds, and in which state, just as it is accepted.
  pub dispatch-Accepted :
      (origin : O) (call : Call) (s t : State L)
      → (dispatch h c origin call s ≡ done tt t) ↔ Accepted h c origin call s t
  dispatch-Accepted origin call s t =
      (succeeded-Accepted origin call s t, Accepted-succeeds origin call s t)
