-- ===== src/Nft/Trading/Bidding.antt =====
-- What a bid of pallets/nft/src/lib.rs achieves.
use nft101_rust.Prelude.{
  ◌+◌, subst, ℕ, ◌≤◌, ◌<◌, ◌≡◌, refl, Option, none, some, List, [], ◌⊎◌, inl, inr, update_self,
  arith, ap, ◌∙◌,
}
use nft101_rust.Frame.{AccountId, Host, accepted, only}
use nft101_rust.Nft.Types.{State, Order, Bid, Vote, Config}
use nft101_rust.Nft.States.{completed, released, released_rest, released_bids, outbid}
use nft101_rust.Nft.Guards.{Outbids}
use nft101_rust.Nft.Cases.{buy_cases}
use nft101_rust.Nft.Dispatch.{order_buy, dispatch}
use nft101_rust.Nft.Backing.{Backed, bid_held}
use nft101_rust.Nft.Backing.Unlocking.{unreserve_exact}
use nft101_rust.Nft.Backing.States.{held_reserved}
use nft101_rust.Nft.WellFormed.{WellFormed, GoodOrder}
use nft101_rust.Nft.Trading.{OnSuccess}

abbrev bid_by : AccountId → ℕ → ℕ → Bid
bid_by who o price = record { order_id = o; price = price; owner = who }

module _ {O L F N : Type 0} (h : Host O L F N) (c : Config F) where
  open h.currency use {free_balance, reserved_balance, reserve_moves, unreserve_moves}

  -- The order was sold to the caller at its end price.
  pub record Sold (who o price : ℕ) (s t : State L) : Type 0 where
    pub order : Order
    pub found : s.orders o ≡ some order
    pub reached : order.end_price ≤ price
    pub closed : t.orders o ≡ none
    pub no_bid : t.bids o ≡ none
    pub no_votes : t.votes o ≡ []
    pub unlisted : t.nft_order order.nft_id ≡ none
    pub handed_over : t.nft_account order.nft_id ≡ who

  -- A bid locks its price, and all that the bid before has locked is free again.
  abbrev pub Exchanged : AccountId → ℕ → Option Bid → L → L → Type 0
  Exchanged who price old l l' =
      (a : AccountId)
      → (free_balance a l' + only a who price ≡ free_balance a l + bid_held a old)
        × (reserved_balance a l' + bid_held a old ≡ reserved_balance a l + only a who price)

  outbid-Exchanged :
      (o : ℕ) (old : Option Bid) (bid : Bid) (l : L) (s : State L)
      → ((a : AccountId) → bid_held a old ≤ reserved_balance a s.ledger)
      → h.currency.reserve bid.owner bid.price s.ledger ≡ accepted l
      → Exchanged bid.owner bid.price old s.ledger (outbid h o old bid l s).ledger
  outbid-Exchanged o none bid l s enough locks a =
      omega (arith, reserve_moves bid.owner bid.price s.ledger l a locks)
  outbid-Exchanged o (some old) bid l s enough locks a =
      let covered : old.price ≤ reserved_balance old.owner l =
        ground
          (arith, enough old.owner, reserve_moves bid.owner bid.price s.ledger l old.owner locks) in
      ground (
        arith,
        reserve_moves bid.owner bid.price s.ledger l a locks,
        unreserve_moves old.owner old.price l a,
        unreserve_exact h old.owner old.price l a covered,
      )

  -- The caller's bid stands for the order, and beats the one before, which is free again.
  pub record Leads (who o price : ℕ) (s t : State L) : Type 0 where
    pub order : Order
    pub found : s.orders o ≡ some order
    pub open_still : t.orders o ≡ some order
    pub stands : t.bids o ≡ some (record { order_id = o; price = price; owner = who })
    pub start_le : order.start_price ≤ price
    pub below_end : price < order.end_price
    pub outbids : Outbids (s.bids o) price
    pub exchanged : Exchanged who price (s.bids o) s.ledger t.ledger

  -- In a well-formed state whose bids and votes are reserved, a bid that succeeds either sells the item to the bidder,
  -- who reached the end price, and clears all that was stored for the order; or it stands as the new
  -- bid, at the start price or more and above the old bid: its price is locked, all that the old bid had
  -- locked is free again, and no other balance changes.
  pub buy_outcome :
      (origin : O) (who o price : ℕ) (others : AccountId → ℕ) (s : State L)
      → h.ensure_signed origin ≡ accepted who
      → WellFormed c s
      → Backed h others s
      → OnSuccess
          (λ t. Sold who o price s t ⊎ Leads who o price s t)
          (dispatch h c origin (order_buy o price) s)
  unfolding dispatch
  buy_outcome origin who o price others s signer w b =
      buy_cases h c (OnSuccess (λ t. Sold who o price s t ⊎ Leads who o price s t)) origin s o price
        (λ e _. tt) (λ _ _ _ _ _ _ _. tt)
        (λ buyer order l paid g reached _ _.
          let good : GoodOrder c s o order = w.order_good o order g.found in
          let sale : State L = completed order buyer paid s in
          let rest = released_rest h o (s.bids o) sale in
          let me : buyer ≡ who = ground (arith, g.signer) in
          inl (record {
            order = order;
            found = g.found;
            reached = reached;
            closed = ap (λ (m : ℕ → Option Order). m o) rest.2 ∙ ground (arith, good.same_id);
            no_bid = released_bids h o (s.bids o) sale refl;
            no_votes = ap (λ (m : ℕ → List Vote). m o) rest.3 ∙ ground (arith, good.same_id);
            unlisted = ap (λ (m : ℕ → Option ℕ). m order.nft_id) rest.1 ∙ ground arith;
            handed_over = ap (λ (m : ℕ → ℕ). m order.nft_id) rest.0 ∙ ground (arith, me);
          }))
        (λ buyer order l g below locks.
          let me : buyer ≡ who = ground (arith, g.signer) in
          let rest = released_rest h o (s.bids o) (record s { ledger = l }) in
          inr (record {
            order = order;
            found = g.found;
            open_still = ap (λ (m : ℕ → Option Order). m o) rest.2 ∙ g.found;
            stands =
                update_self (released h o (s.bids o) (record s { ledger = l })).bids o
                  (some (bid_by buyer o price))
                ∙ ap (λ (x : ℕ). some (bid_by x o price)) me;
            start_le = g.start_le;
            below_end = below;
            outbids = g.outbids;
            exchanged =
                subst
                  (λ (x : ℕ).
                    Exchanged x price (s.bids o) s.ledger
                      (outbid h o (s.bids o) (bid_by buyer o price) l s).ledger)
                  me
                  (outbid-Exchanged o (s.bids o) (bid_by buyer o price) l s
                    (λ a. omega (
                      arith,
                      held_reserved h c others s a o b (w.order_good o order g.found).fresh,
                    ))
                    locks);
          }))
