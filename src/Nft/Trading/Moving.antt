-- ===== src/Nft/Trading/Moving.antt =====
-- Whose money the calls of pallets/nft/src/lib.rs move.
use nft101_rust.Prelude.{
  ℕ, ◌+◌, ◌≤◌, ◌≡◌, ◌≢◌, refl, Option, none, some, ◌⊎◌, inl, inr, All, arith, ap, sym, ◌∙◌,
}
use mathlib.Core.Option.{some-injective}
use nft101_rust.Frame.{AccountId, Host, only, accepted}
use nft101_rust.Nft.Types.{State, Order, Bid, Config}
use nft101_rust.Nft.States.{completed, released_rest}
use nft101_rust.Nft.Payout.{algorithm}
use nft101_rust.Nft.Cases.{
  create_cases, remove_cases, transfer_cases, sell_cases, buy_cases, settlement_cases, vote_cases,
}
use nft101_rust.Nft.Dispatch.{
  Call, create, remove, transfer, order_sell, order_buy, order_settlement, vote_order, dispatch,
  After,
}
use nft101_rust.Nft.WellFormed.{WellFormed}
use nft101_rust.Nft.Trading.Funds.{
  IsOther, funds, reserve-funds, unreserve-funds, unlock_votes-funds, released-funds,
  transfer-funds, algorithm-funds,
}

-- The buyer gave the standing bid, of that price.
abbrev pub IsBidOf : {L : Type 0} → State L → ℕ → AccountId → ℕ → Type 0
IsBidOf s o buyer price =
    (bid : Bid) × (s.bids o ≡ some bid) × (bid.owner ≡ buyer) × (bid.price ≡ price)

module _ {O L F N : Type 0} (h : Host O L F N) (c : Config F) where
  -- The sale of an order, for a price that the buyer agreed to.
  pub record PaidSale (origin : O) (s t : State L) : Type 0 where
    pub o : ℕ
    pub order : Order
    pub buyer : AccountId
    pub price : ℕ
    pub found : s.orders o ≡ some order
    pub closed : t.orders o ≡ none
    pub agreed :
        ((h.ensure_signed origin ≡ accepted buyer) × (price ≡ order.end_price))
        ⊎ IsBidOf s o buyer price
    pub start_le : order.start_price ≤ price
    pub price_le : price ≤ order.end_price
    pub others :
        (a : AccountId)
        → a ≢ order.owner
        → funds h a s.ledger ≤ funds h a t.ledger + only a buyer price
    pub bystanders :
        (a : AccountId)
        → a ≢ order.owner
        → All (IsOther a) (s.votes o)
        → funds h a t.ledger + only a buyer price ≡ funds h a s.ledger

  -- No account's funds changed, or an order was sold.
  abbrev pub MovesFunds : O → State L → State L → Type 0
  MovesFunds origin s t =
      ((a : AccountId) → funds h a t.ledger ≡ funds h a s.ledger) ⊎ PaidSale origin s t

  -- The funds of an account that is not the seller's, over the payment and the payout of a sale.
  completed-funds :
      (order : Order) (buyer price : ℕ) (s : State L) (l0 l paid : L) (a : AccountId)
      → a ≢ order.owner
      → ((b : AccountId) → funds h b l0 ≡ funds h b s.ledger)
      → h.currency.transfer buyer order.owner price l0 ≡ accepted l
      → algorithm h c order price (s.votes order.order_id) l ≡ some paid
      → (funds h a s.ledger ≤ funds h a paid + only a buyer price)
        × (All (IsOther a) (s.votes order.order_id)
            → funds h a paid + only a buyer price ≡ funds h a s.ledger)
  completed-funds order buyer price s l0 l paid a ne same moves shares =
      let first = transfer-funds h buyer order.owner price l0 l a moves in
      let rest = algorithm-funds h c order price (s.votes order.order_id) l paid a ne shares in
      (ground (arith, first, rest.0, same a), λ all. ground (arith, first, rest.1 all, same a))

  -- A call, where it ends, leaves what each account has, free and reserved together; or it sells an open order, to
  -- its caller for the end price or to the account of the standing bid for the price of that bid. Of such a sale, no
  -- account but the seller's pays anything but the price, which the buyer pays; and one that has no vote
  -- on the order gets nothing either.
  pub dispatch-MovesFunds :
      (origin : O) (call : Call) (s : State L)
      → WellFormed c s
      → After (MovesFunds origin s) (dispatch h c origin call s)
  unfolding dispatch
  dispatch-MovesFunds origin (create title url desc) s w =
      create_cases h c (After (MovesFunds origin s)) origin s title url desc
        (λ e _. inl (λ a. refl)) λ who sg room. inl (λ a. refl)
  dispatch-MovesFunds origin (remove n) s w =
      remove_cases h c (After (MovesFunds origin s)) origin s n (λ e _. inl (λ a. refl))
        λ who nft sg found owner free. inl (λ a. refl)
  dispatch-MovesFunds origin (transfer target n) s w =
      transfer_cases h c (After (MovesFunds origin s)) origin s target n (λ e _. inl (λ a. refl))
        λ who nft sg found owner free. inl (λ a. refl)
  dispatch-MovesFunds origin (order_sell n start_price end_price keep) s w =
      sell_cases h c (After (MovesFunds origin s)) origin s n start_price end_price keep
        (λ e _. inl (λ a. refl)) λ who g. inl (λ a. refl)
  dispatch-MovesFunds origin (order_buy o price) s w =
      buy_cases h c (After (MovesFunds origin s)) origin s o price (λ e _. inl (λ a. refl))
        (λ _ _ _ _ _ _ _. tt)
        (λ buyer order l paid g reached moves shares.
          let good = w.order_good o order g.found in
          let sale : State L = completed order buyer paid s in
          let freed = released-funds h o (s.bids o) sale in
          let each = λ (a : AccountId) (ne : a ≢ order.owner).
            completed-funds order buyer order.end_price s s.ledger l paid a ne (λ b. refl) moves
              shares in
          inr (record {
            o = o;
            order = order;
            buyer = buyer;
            price = order.end_price;
            found = g.found;
            closed =
                ap (λ (m : ℕ → Option Order). m o) (released_rest h o (s.bids o) sale).2
                ∙ ground (arith, good.same_id);
            agreed = inl (g.signer, refl);
            start_le = good.price_le;
            price_le = omega arith;
            others = λ a ne. omega (arith, (each a ne).0, freed a);
            bystanders = λ a ne all. rw (freed a) ((each a ne).1 (rw good.same_id all));
          }))
        (λ buyer order l g _ locks. inl (λ a.
          released-funds h o (s.bids o) (record s { ledger = l }) a
          ∙ reserve-funds h buyer price s.ledger l a locks))
  dispatch-MovesFunds origin (order_settlement o) s w =
      settlement_cases h c (After (MovesFunds origin s)) origin s o (λ e _. inl (λ a. refl))
        (λ _ _ _ _ _ _ _ _ _. tt)
        (λ who order _ _ _. inl (λ a. unlock_votes-funds h (s.votes o) s.ledger a))
        (λ who order bid _ _ _ _ _. inl (λ a. unreserve-funds h bid.owner bid.price s.ledger a))
        (λ who order bid l paid g _ best moves shares.
          let good = w.order_good o order g.found in
          let (other, found, _, start_le, below) = w.bid_good o bid best in
          let same : other ≡ order = some-injective _ _ (sym found ∙ g.found) in
          let each = λ (a : AccountId) (ne : a ≢ order.owner).
            completed-funds order bid.owner bid.price s _ l paid a ne
              (unreserve-funds h bid.owner bid.price s.ledger) moves shares in
          inr (record {
            o = o;
            order = order;
            buyer = bid.owner;
            price = bid.price;
            found = g.found;
            closed = ground (arith, good.same_id);
            agreed = inr (bid, best, refl, refl);
            start_le = rw (← same) start_le;
            price_le = rw (← same) (omega (arith, below));
            others = λ a ne. (each a ne).0;
            bystanders = λ a ne all. (each a ne).1 (rw good.same_id all);
          }))
  dispatch-MovesFunds origin (vote_order o amount) s w =
      vote_cases h c (After (MovesFunds origin s)) origin s o amount (λ e _. inl (λ a. refl))
        λ who order l _ _ _ _ locks. inl (λ a. reserve-funds h who amount s.ledger l a locks)
