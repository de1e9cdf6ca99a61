-- ===== src/Nft/WellFormed/Kept.antt =====
-- The invariant at the states in which items, listings and sales of pallets/nft/src/lib.rs end.
use nft101_rust.Prelude.{
  ℕ, ◌≤◌, ◌≡◌, ◌≢◌, is_some, true, none, some, [], update, ap, sym, ◌∙◌, update_self, update_ne,
  arith,
}
use native.Mathlib.Decide.{ℕ_discrete}
use nft101_rust.Frame.{AccountId}
use nft101_rust.Nft.Types.{State, Nft, Order, Config}
use nft101_rust.Nft.States.{created, removed, transferred, listed}
use nft101_rust.Nft.WellFormed.{WellFormed, GoodOrder}

module _ {L : Type 0} where
  -- How an order ends: it, its listing, its votes and its bid are gone, its item may change hands, and all
  -- else stays.
  pub record Closes (s : State L) (o : ℕ) (order : Order) (t : State L) : Type 0 where
    pub orders_eq : (j : ℕ) → t.orders j ≡ update s.orders o none j
    pub nft_order_eq : (n : ℕ) → t.nft_order n ≡ update s.nft_order order.nft_id none n
    pub votes_eq : (j : ℕ) → t.votes j ≡ update s.votes o [] j
    pub bids_eq : (j : ℕ) → t.bids j ≡ update s.bids o none j
    pub owners_eq : (n : ℕ) → n ≢ order.nft_id → t.nft_account n ≡ s.nft_account n
    pub nfts_eq : (n : ℕ) → t.nfts n ≡ s.nfts n
    pub next_nft_eq : t.next_nft_id ≡ s.next_nft_id
    pub next_order_eq : t.next_order_id ≡ s.next_order_id
    pub block_eq : t.block_number ≡ s.block_number

module _ {L F : Type 0} (c : Config F) where
  pub created-WellFormed :
      (who : AccountId) (nft : Nft) (s : State L)
      → WellFormed c s
      → WellFormed c (created who nft s)
  created-WellFormed who nft s w = record {
    order_good = λ o order e. ground (arith, w.order_good o order e, w.item_fresh order.nft_id);
    item_listed = w.item_listed;
    bid_good = w.bid_good;
    votes_open = w.votes_open;
    votes_good = w.votes_good;
    votes_timed = w.votes_timed;
    item_fresh = λ n e. ground (arith, w.item_fresh n);
  }

  pub removed-WellFormed :
      (d who : AccountId) (n : ℕ) (s : State L)
      → s.nft_order n ≡ none
      → WellFormed c s
      → WellFormed c (removed d who n s)
  removed-WellFormed d who n s free w = record {
    order_good = λ o order e. ground (arith, w.order_good o order e);
    item_listed = w.item_listed;
    bid_good = w.bid_good;
    votes_open = w.votes_open;
    votes_good = w.votes_good;
    votes_timed = w.votes_timed;
    item_fresh = λ m e. ground (arith, w.item_fresh m);
  }

  pub transferred-WellFormed :
      (who target : AccountId) (n : ℕ) (s : State L)
      → s.nft_order n ≡ none
      → WellFormed c s
      → WellFormed c (transferred who target n s)
  transferred-WellFormed who target n s free w = record {
    order_good = λ o order e. ground (arith, w.order_good o order e);
    item_listed = w.item_listed;
    bid_good = w.bid_good;
    votes_open = w.votes_open;
    votes_good = w.votes_good;
    votes_timed = w.votes_timed;
    item_fresh = w.item_fresh;
  }

  pub listed-WellFormed :
      (order : Order) (s : State L)
      → order.order_id ≡ s.next_order_id
      → order.create_block ≡ s.block_number
      → order.owner ≡ s.nft_account order.nft_id
      → is_some (s.nfts order.nft_id) ≡ true
      → s.nft_order order.nft_id ≡ none
      → c.min_keep_block_number ≤ order.keep_block_num
      → order.keep_block_num ≤ c.max_keep_block_number
      → c.minimum_price ≤ order.start_price
      → order.start_price ≤ order.end_price
      → WellFormed c s
      → WellFormed c (listed order s)
  listed-WellFormed order s id now owner item free k1 k2 p1 p2 w = record {
    order_good = λ o x e. ground (arith, w.order_good o x);
    item_listed = λ n o e. elim (ℕ_discrete n order.nft_id) [
      | yes p ↦ (order, ground arith, sym p)
      | no p ↦
          let old = w.item_listed n o (ground arith) in
          (old.0, ground (arith, old.1, w.order_good o old.0), old.2)
    ];
    bid_good = λ o b e.
        let old = w.bid_good o b e in
        (old.0, ground (arith, w.order_good o old.0), old.2, old.3, old.4);
    votes_open = λ o e. ground (arith, w.votes_open o);
    votes_good = λ o. elim (ℕ_discrete o order.order_id) [
      | yes p ↦ rw (p, update_self s.votes order.order_id []) tt
      | no p ↦ rw (update_ne s.votes order.order_id [] o p) (w.votes_good o)
    ];
    votes_timed = λ o x e. elim (ℕ_discrete o order.order_id) [
      | yes p ↦ rw (p, update_self s.votes order.order_id []) tt
      | no p ↦
          rw (update_ne s.votes order.order_id [] o p)
            (w.votes_timed o x (sym (update_ne s.orders order.order_id (some order) o p) ∙ e))
    ];
    item_fresh = w.item_fresh;
  }

  pub Closes-WellFormed :
      (s t : State L) (o : ℕ) (order : Order)
      → WellFormed c s
      → s.orders o ≡ some order
      → Closes s o order t
      → WellFormed c t
  Closes-WellFormed s t o order w found k =
      let g : GoodOrder c s o order = w.order_good o order found in
      record {
        order_good = λ j x e. elim (ℕ_discrete j o) [
          | yes p ↦ ground (arith, k.orders_eq j)
          | no p ↦
              let old : GoodOrder c s j x = w.order_good j x (ground (arith, k.orders_eq j)) in
              let other : x.nft_id ≢ order.nft_id = λ q. ground (arith, ap s.nft_order q) in
              ground (arith, k.nft_order_eq x.nft_id, k.owners_eq x.nft_id, k.nfts_eq x.nft_id)
        ];
        item_listed = λ n j e.
            let old = w.item_listed n j (ground (arith, k.nft_order_eq n)) in
            (old.0, ground (arith, old.1, old.2, k.nft_order_eq n, k.orders_eq j), old.2);
        bid_good = λ j b e.
            let old = w.bid_good j b (ground (arith, k.bids_eq j)) in
            (old.0, ground (arith, k.orders_eq j, k.bids_eq j), old.2, old.3, old.4);
        votes_open = λ j e. ground (arith, k.votes_eq j, k.orders_eq j, w.votes_open j);
        votes_good = λ j. elim (ℕ_discrete j o) [
          | yes p ↦ rw (p, k.votes_eq o, update_self s.votes o []) tt
          | no p ↦ rw (k.votes_eq j, update_ne s.votes o [] j p) (w.votes_good j)
        ];
        votes_timed = λ j x e. elim (ℕ_discrete j o) [
          | yes p ↦ rw (p, k.votes_eq o, update_self s.votes o []) tt
          | no p ↦
              rw (k.votes_eq j, update_ne s.votes o [] j p)
                (w.votes_timed j x (sym (k.orders_eq j ∙ update_ne s.orders o none j p) ∙ e))
        ];
        item_fresh = λ n e. ground (arith, k.nfts_eq n, w.item_fresh n);
      }
