-- ===== src/Nft/Cases/Parts.antt =====
-- How the shared parts of the dispatchables of pallets/nft/src/lib.rs can end.
use nft101_rust.Prelude.{ℕ, ◌≤◌, ◌≡◌, refl, Option, none, some, arith}
use nft101_rust.Frame.{Host, accepted, refused}
use nft101_rust.Nft.Types.{State, Order, Bid, Config, Error, module_error, foreign}
use nft101_rust.Nft.Effects.{Outcome, done, failed, panicked, M, ◌>>=◌}
use nft101_rust.Nft.Parts.{ensure_outbids, release_bid, place_bid}
use nft101_rust.Nft.Calls.{order_complete}
use nft101_rust.Nft.Payout.{algorithm}
use nft101_rust.Nft.Steps.{reply-step, panic-step}
use nft101_rust.Nft.States.{completed, released, outbid}
use nft101_rust.Nft.Guards.{Outbids}

module _ {L : Type 0} (P : Outcome L (Unit {0}) → Type 0) where
  pub outbids-step :
      (b : Option Bid) (price : ℕ) (k : Unit {0} → M L (Unit {0})) (s : State L)
      → ((bid : Bid)
          → b ≡ some bid
          → price ≤ bid.price
          → P (failed (module_error Error.order_price_too_small) s))
      → (Outbids b price → P (k tt s))
      → P ((ensure_outbids b price >>= k) s)
  outbids-step none price k s bad good = good tt
  outbids-step (some bid) price k s bad good = ground (arith, bad bid refl, good)

module _ {O L F N : Type 0} (h : Host O L F N) (c : Config F)
    (P : Outcome L (Unit {0}) → Type 0) where
  pub complete_cases :
      (order : Order) (buyer price settlement : ℕ) (s : State L)
      → ((e : ℕ)
          → h.currency.transfer buyer order.owner price s.ledger ≡ refused e
          → P (failed (foreign e) s))
      → ((l : L)
          → h.currency.transfer buyer order.owner price s.ledger ≡ accepted l
          → algorithm h c order price (s.votes order.order_id) l ≡ none
          → P panicked)
      → ((l paid : L)
          → h.currency.transfer buyer order.owner price s.ledger ≡ accepted l
          → algorithm h c order price (s.votes order.order_id) l ≡ some paid
          → P (done tt (completed order buyer paid s)))
      → P (order_complete h c order buyer price settlement s)
  unfolding order_complete
  complete_cases order buyer price settlement s bad panics good =
      reply-step P (h.currency.transfer buyer order.owner price s.ledger) _ s bad λ l moved.
        panic-step P (algorithm h c order price (s.votes order.order_id) l) _ _ (panics l moved)
          λ paid shares. good l paid moved shares

  pub release-step :
      (order_id : ℕ) (b : Option Bid) (k : Unit {0} → M L (Unit {0})) (s : State L)
      → P (k tt (released h order_id b s))
      → P ((release_bid h order_id b >>= k) s)
  release-step order_id none k s p = p
  release-step order_id (some bid) k s p = p

  pub release_lem :
      (order_id : ℕ) (b : Option Bid) (s : State L)
      → P (done tt (released h order_id b s))
      → P (release_bid h order_id b s)
  release_lem order_id none s p = p
  release_lem order_id (some bid) s p = p

  pub place_cases :
      (who order_id price : ℕ) (s : State L)
      → ((e : ℕ) → h.currency.reserve who price s.ledger ≡ refused e → P (failed (foreign e) s))
      → ((l : L)
          → h.currency.reserve who price s.ledger ≡ accepted l
          → P (
              done tt (
                outbid h order_id
                  (s.bids order_id)
                  (record { order_id = order_id; price = price; owner = who })
                  l
                  s)))
      → P (place_bid h who order_id price s)
  unfolding place_bid
  place_cases who order_id price s bad good =
      reply-step P (h.currency.reserve who price s.ledger) _ s bad λ l locked.
        release-step order_id (s.bids order_id) _ (record s { ledger = l }) (good l locked)
