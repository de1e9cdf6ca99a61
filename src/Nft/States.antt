-- ===== src/Nft/States.antt =====
-- The states in which the dispatchables of pallets/nft/src/lib.rs end.
use nft101_rust.Prelude.{update_self, ◌≡◌, refl, ℕ, ◌+◌, Option, none, some, [], ◌∷◌, ◌++◌, update}
use nft101_rust.Frame.{AccountId, Host}
use nft101_rust.Nft.Types.{State, Nft, Order, Bid, Vote, Event}
use nft101_rust.Nft.Parts.{unlock_votes}

module _ {L : Type 0} where
  abbrev pub logged : Event → State L → State L
  logged e s = record s { events = s.events ++ e ∷ [] }

  abbrev pub created : AccountId → Nft → State L → State L
  created who nft s = record s {
    nfts = update s.nfts s.next_nft_id (some nft);
    nft_account = update s.nft_account s.next_nft_id who;
    events = s.events ++ Event.nft_created who s.next_nft_id ∷ [];
    next_nft_id = s.next_nft_id + 1;
  }

  abbrev pub removed : AccountId → AccountId → ℕ → State L → State L
  removed default_account who nft_id s = record s {
    nfts = update s.nfts nft_id none;
    nft_account = update s.nft_account nft_id default_account;
    events = s.events ++ Event.nft_remove who nft_id ∷ [];
  }

  abbrev pub transferred : AccountId → AccountId → ℕ → State L → State L
  transferred who target nft_id s = record s {
    nft_account = update s.nft_account nft_id target;
    events = s.events ++ Event.nft_transfer who target nft_id ∷ [];
  }

  abbrev pub listed : Order → State L → State L
  listed order s = record s {
    orders = update s.orders order.order_id (some order);
    nft_order = update s.nft_order order.nft_id (some order.order_id);
    votes = update s.votes order.order_id [];
    events = s.events ++ Event.order_sell order.owner order.order_id ∷ [];
    next_order_id = order.order_id + 1;
  }

  -- The sale of an order to a buyer, with the ledger that the payments leave.
  abbrev pub completed : Order → AccountId → L → State L → State L
  completed order buyer paid s = record s {
    ledger = paid;
    orders = update s.orders order.order_id none;
    nft_order = update s.nft_order order.nft_id none;
    votes = update s.votes order.order_id [];
    nft_account = update s.nft_account order.nft_id buyer;
    events = s.events ++ Event.order_complete buyer order.order_id ∷ [];
  }

  abbrev pub voted : ℕ → Vote → L → State L → State L
  voted order_id vote ledger s = record s {
    ledger = ledger;
    votes = update s.votes order_id (s.votes order_id ++ vote ∷ []);
  }

module _ {O L F N : Type 0} (h : Host O L F N) where
  abbrev pub released : ℕ → Option Bid → State L → State L
  released order_id none s = s
  released order_id (some bid) s = record s {
    ledger = h.currency.unreserve bid.owner bid.price s.ledger;
    bids = update s.bids order_id none;
  }

  -- A new bid in place of the old one, from a ledger in which its price is reserved.
  abbrev pub outbid : ℕ → Option Bid → Bid → L → State L → State L
  outbid order_id old bid ledger s =
      let t = released order_id old (record s { ledger = ledger }) in
      record t {
        bids = update t.bids order_id (some bid);
        events = t.events ++ Event.order_buy bid.owner order_id ∷ [];
      }

  abbrev pub cancelled : Order → ℕ → State L → State L
  cancelled order order_id s = record s {
    orders = update s.orders order_id none;
    nft_order = update s.nft_order order.nft_id none;
    ledger = unlock_votes h (s.votes order_id) s.ledger;
    votes = update s.votes order_id [];
    events = s.events ++ Event.order_cancel order.owner order_id ∷ [];
  }

  -- Releasing a bid leaves all but the bids and the ledger.
  pub released_rest :
      (order_id : ℕ) (b : Option Bid) (s : State L)
      → ((released order_id b s).nft_account ≡ s.nft_account)
        × ((released order_id b s).nft_order ≡ s.nft_order)
        × ((released order_id b s).orders ≡ s.orders)
        × ((released order_id b s).votes ≡ s.votes)
        × ((released order_id b s).events ≡ s.events)
  released_rest order_id none s = (refl, refl, refl, refl, refl)
  released_rest order_id (some bid) s = (refl, refl, refl, refl, refl)

  -- It leaves no bid for the order that it is about.
  pub released_bids :
      (order_id : ℕ) (b : Option Bid) (s : State L)
      → s.bids order_id ≡ b
      → (released order_id b s).bids order_id ≡ none
  released_bids order_id none s e = e
  released_bids order_id (some bid) s e = update_self s.bids order_id none
