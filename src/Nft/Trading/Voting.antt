-- ===== src/Nft/Trading/Voting.antt =====
-- What `vote_order` of pallets/nft/src/lib.rs achieves.
use nft101_rust.Prelude.{
  ℕ, ◌+◌, ◌-◌, ◌≤◌, ◌≡◌, ◌≢◌, refl, some, [], ◌∷◌, ◌++◌, update_self, update_ne, arith,
}
use nft101_rust.Frame.{AccountId, Host, accepted, only}
use nft101_rust.Nft.Types.{State, Order, Config}
use nft101_rust.Nft.Cases.{vote_cases}
use nft101_rust.Nft.Dispatch.{vote_order, dispatch}
use nft101_rust.Nft.Trading.{OnSuccess}

module _ {O L F N : Type 0} (h : Host O L F N) (c : Config F) where
  open h.currency use {free_balance, reserved_balance, reserve_moves}

  -- The caller's vote is the last one on a running order, with the blocks that were left, and its amount is locked.
  pub record Voted (who o amount : ℕ) (s t : State L) : Type 0 where
    pub order : Order
    pub found : s.orders o ≡ some order
    pub started : order.create_block ≤ s.block_number
    pub running : s.block_number ≤ order.create_block + order.keep_block_num
    pub enough : c.minimum_voting_lock ≤ amount
    pub left : ℕ
    pub left_eq : s.block_number + left ≡ order.create_block + order.keep_block_num
    pub voted :
        t.votes o
        ≡ s.votes o
          ++ (record { order_id = o; amount = amount; keep_block_num = left; owner = who }) ∷ []
    pub locked :
        (a : AccountId)
        → (free_balance a t.ledger + only a who amount ≡ free_balance a s.ledger)
          × (reserved_balance a t.ledger ≡ reserved_balance a s.ledger + only a who amount)
    pub other_votes : (j : ℕ) → j ≢ o → t.votes j ≡ s.votes j
    pub same_orders : t.orders ≡ s.orders
    pub same_bids : t.bids ≡ s.bids
    pub same_holders : t.nft_account ≡ s.nft_account
    pub same_listings : t.nft_order ≡ s.nft_order
    pub same_events : t.events ≡ s.events

  -- A vote that is accepted is for an order whose time has not passed, and locks the least amount or more: it is added
  -- behind the other votes with the number of blocks that the order has left, which is 0 in the last
  -- one, and its amount is locked. No other vote or balance changes, nor any order, bid, item or
  -- listing, and no event tells of it.
  pub vote_outcome :
      (origin : O) (who o amount : ℕ) (s : State L)
      → h.ensure_signed origin ≡ accepted who
      → OnSuccess (Voted who o amount s) (dispatch h c origin (vote_order o amount) s)
  unfolding dispatch
  vote_outcome origin who o amount s signer =
      vote_cases h c (OnSuccess (Voted who o amount s)) origin s o amount (λ e _. tt)
        λ voter order l g running enough _ locks.
          let me : voter ≡ who = ground (arith, g.signer) in
          let left = order.create_block + order.keep_block_num - s.block_number in
          record {
            order = order;
            found = g.found;
            started = g.started;
            running = omega (arith, g.started, running);
            enough = enough;
            left = left;
            left_eq = omega (arith, g.started, running);
            voted = rw (← me) (update_self s.votes o _);
            locked = λ a. rw (← me) (ground (arith, reserve_moves voter amount s.ledger l a locks));
            other_votes = λ j ne. update_ne s.votes o _ j ne;
            same_orders = refl;
            same_bids = refl;
            same_holders = refl;
            same_listings = refl;
            same_events = refl;
          }
