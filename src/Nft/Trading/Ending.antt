-- ===== src/Nft/Trading/Ending.antt =====
-- How the settlements of pallets/nft/src/lib.rs bring every order to its end.
use nft101_rust.Prelude.{
  ℕ, ◌+◌, ◌<◌, ◌≡◌, none, some, Option-cases, inl, inr, ◌⊎◌, ◌≢◌, List, [], ◌∷◌, refl, arith,
}
use nft101_rust.Frame.{AccountId, Host, Reply, accepted, refused}
use nft101_rust.Nft.Types.{State, Order, Bid, Vote, Config, DispatchError, foreign}
use nft101_rust.Nft.Effects.{done, failed, panicked}
use nft101_rust.Nft.Payout.{algorithm}
use nft101_rust.Nft.Dispatch.{dispatch, order_settlement, ends_after, errs}
use nft101_rust.Nft.WellFormed.{WellFormed, GoodOrder}
use nft101_rust.Nft.WellFormed.Always.{dispatch-WellFormed}
use nft101_rust.Nft.Backing.{Backed}
use nft101_rust.Nft.Backing.Always.{dispatch-Backed}
use nft101_rust.Nft.Trading.Settling.{expired_cancels, failed_settlement_drops}
use nft101_rust.Nft.Trading.Selling.{settlement_sells, settlement_panics}

module _ {O L F N : Type 0} (h : Host O L F N) (c : Config F) where
  -- A settlement that closes the order.
  pub record Closing (origin : O) (o : ℕ) (s : State L) : Type 0 where
    pub after : State L
    pub is_done : dispatch h c origin (order_settlement o) s ≡ done tt after
    pub closed : after.orders o ≡ none
    pub no_bid : after.bids o ≡ none
    pub no_votes : after.votes o ≡ []

  -- A settlement that fails on the payment, after which the next one closes the order.
  pub record Retried (origin : O) (o : ℕ) (s : State L) : Type 0 where
    pub between : State L
    pub error : DispatchError
    pub has_failed : dispatch h c origin (order_settlement o) s ≡ failed error between
    pub again : Closing origin o between

  expired_closes :
      (origin : O) (who o : ℕ) (order : Order) (others : AccountId → ℕ) (s : State L)
      → h.ensure_signed origin ≡ accepted who
      → s.orders o ≡ some order
      → s.bids o ≡ none
      → order.create_block + order.keep_block_num < s.block_number
      → WellFormed c s
      → Backed h others s
      → Closing origin o s
  expired_closes origin who o order others s signer found no_bid over w b =
      let (t, e, k) =
        expired_cancels h c origin who o order others s signer found no_bid over w b in
      record { after = t; is_done = e; closed = k.closed; no_bid = k.no_bid; no_votes = k.no_votes }

  reply_cases :
      {A : Type 0} (r : Reply A) → ((e : ℕ) × (r ≡ refused e)) ⊎ ((a : A) × (r ≡ accepted a))
  reply_cases (refused e) = inl (e, refl)
  reply_cases (accepted a) = inr (a, refl)

  dropped_closes :
      (origin : O) (who o e : ℕ) (order : Order) (bid : Bid) (others : AccountId → ℕ) (s : State L)
      → h.ensure_signed origin ≡ accepted who
      → s.orders o ≡ some order
      → s.bids o ≡ some bid
      → order.create_block + order.keep_block_num < s.block_number
      → h.currency.transfer bid.owner order.owner bid.price
          (h.currency.unreserve bid.owner bid.price s.ledger)
        ≡ refused e
      → WellFormed c s
      → Backed h others s
      → Retried origin o s
  dropped_closes origin who o e order bid others s signer found best over unpaid w b =
      let (t, fails, k) =
        failed_settlement_drops h c origin who o order bid e others s signer found best over unpaid
          w b in
      let w' =
        ends_after (WellFormed c) _ t (errs (foreign e) fails)
          (dispatch-WellFormed h c origin (order_settlement o) s w) in
      let b' =
        ends_after (Backed h others) _ t (errs (foreign e) fails)
          (dispatch-Backed h c others origin (order_settlement o) s w b) in
      record {
        between = t;
        error = foreign e;
        has_failed = fails;
        again =
            expired_closes origin who o order others t signer k.open_still k.no_bid
              (omega (arith, k.same_block, over)) w' b';
      }

  -- Without votes nothing is computed.
  panic_votes :
      (order : Order) (price : ℕ) (votes : List Vote) (l : L)
      → algorithm h c order price votes l ≡ none
      → votes ≢ []
  unfolding algorithm
  panic_votes order price [] l e none_there = cc
  panic_votes order price (v ∷ vs) l e none_there = cc

  -- In a well-formed state whose bids and votes are reserved, any account can end an order
  -- whose time has passed, with one settlement or with two, unless the order has votes and the
  -- payout to them panics.
  pub settlements_end :
      (origin : O) (who o : ℕ) (order : Order) (others : AccountId → ℕ) (s : State L)
      → h.ensure_signed origin ≡ accepted who
      → s.orders o ≡ some order
      → order.create_block + order.keep_block_num < s.block_number
      → WellFormed c s
      → Backed h others s
      → Closing origin o s
        ⊎ Retried origin o s
        ⊎ ((dispatch h c origin (order_settlement o) s ≡ panicked) × (s.votes o ≢ []))
  settlements_end origin who o order others s signer found over w b =
      let good : GoodOrder c s o order = w.order_good o order found in
      elim (Option-cases (s.bids o)) [
        | inl no_bid ↦ inl (expired_closes origin who o order others s signer found no_bid over w b)
        | inr (bid, best) ↦
            elim (reply_cases (
              h.currency.transfer bid.owner order.owner bid.price
                (h.currency.unreserve bid.owner bid.price s.ledger))) [
                  | inl (e, unpaid) ↦ inr (
                      inl (
                        dropped_closes origin who o e order bid others s signer found best over
                          unpaid w b))
                  | inr (l, pays) ↦
                      elim (Option-cases (algorithm h c order bid.price (s.votes o) l)) [
                        | inl bad ↦ inr (
                            inr (
                              settlement_panics h c origin who o order bid l s good.same_id
                                  good.started signer found best over pays bad,
                              panic_votes order bid.price (s.votes o) l bad,
                            ))
                        | inr (paid, shares) ↦
                            let (t, e, k) =
                              settlement_sells h c origin who o order bid l paid s good.same_id
                                good.started signer found best over pays shares in
                            inl (record {
                              after = t;
                              is_done = e;
                              closed = k.closed;
                              no_bid = k.no_bid;
                              no_votes = k.no_votes;
                            })
                      ]
                ]
      ]
