-- ===== src/Nft/WellFormed/Ranges.antt =====
-- The counters of pallets/nft/src/lib.rs and the greatest values of their types.
use nft101_rust.Prelude.{ℕ, ◌≤◌, ◌<◌, ◌≡◌, refl, Option, none, some, is_some, true, arith}
use nft101_rust.Frame.{Host}
use nft101_rust.Nft.Types.{State, Order, Bid, Config}
use nft101_rust.Nft.States.{completed, released, outbid}
use nft101_rust.Nft.Cases.{
  create_cases, remove_cases, transfer_cases, sell_cases, buy_cases, settlement_cases, vote_cases,
}
use nft101_rust.Nft.Dispatch.{
  Call, create, remove, transfer, order_sell, order_buy, order_settlement, vote_order, dispatch,
  ends_after, Step, calls, next_block, outside, Reach, here, next, genesis, After,
}
use nft101_rust.Nft.WellFormed.{WellFormed, GoodOrder}
use nft101_rust.Nft.WellFormed.Always.{reach-WellFormed}

module _ {L F : Type 0} (c : Config F) where
  -- The next identifiers and the block number are values of their types.
  pub record InRange (s : State L) : Type 0 where
    pub nft_id_le : s.next_nft_id ≤ c.max_nft_id
    pub order_id_le : s.next_order_id ≤ c.max_order_id
    pub block_le : s.block_number ≤ c.max_block_number

  -- So is all that is stored under an identifier.
  pub record IsTyped (s : State L) : Type 0 where
    pub counters : InRange s
    pub items : (n : ℕ) → is_some (s.nfts n) ≡ true → n < c.max_nft_id
    pub listings : (n o : ℕ) → s.nft_order n ≡ some o → o < c.max_order_id
    pub starts :
        (o : ℕ) (order : Order) → s.orders o ≡ some order → order.create_block ≤ c.max_block_number

module _ {O L F N : Type 0} (h : Host O L F N) (c : Config F) where
  released-InRange :
      (o : ℕ) (b : Option Bid) (s : State L) → InRange c s → InRange c (released h o b s)
  released-InRange o none s r = r
  released-InRange o (some bid) s r = record {
    nft_id_le = r.nft_id_le;
    order_id_le = r.order_id_le;
    block_le = r.block_le;
  }

  outbid-InRange :
      (o : ℕ) (old : Option Bid) (bid : Bid) (l : L) (s : State L)
      → InRange c s
      → InRange c (outbid h o old bid l s)
  outbid-InRange o none bid l s r = record {
    nft_id_le = r.nft_id_le;
    order_id_le = r.order_id_le;
    block_le = r.block_le;
  }
  outbid-InRange o (some old) bid l s r = record {
    nft_id_le = r.nft_id_le;
    order_id_le = r.order_id_le;
    block_le = r.block_le;
  }

  -- A state with the counters of another.
  same_counters :
      (s t : State L)
      → t.next_nft_id ≡ s.next_nft_id
      → t.next_order_id ≡ s.next_order_id
      → t.block_number ≡ s.block_number
      → InRange c s
      → InRange c t
  same_counters s t e1 e2 e3 r = record {
    nft_id_le = omega (arith, e1, r.nft_id_le);
    order_id_le = omega (arith, e2, r.order_id_le);
    block_le = omega (arith, e3, r.block_le);
  }

  dispatch-InRange :
      (origin : O) (call : Call) (s : State L)
      → InRange c s
      → After (InRange c) (dispatch h c origin call s)
  unfolding dispatch
  dispatch-InRange origin (create title url desc) s r =
      create_cases h c (After (InRange c)) origin s title url desc (λ e _. r)
        λ who sg room. record {
          nft_id_le = room;
          order_id_le = r.order_id_le;
          block_le = r.block_le;
        }
  dispatch-InRange origin (remove n) s r =
      remove_cases h c (After (InRange c)) origin s n (λ e _. r)
        λ who nft _ _ _ _. same_counters s _ refl refl refl r
  dispatch-InRange origin (transfer target n) s r =
      transfer_cases h c (After (InRange c)) origin s target n (λ e _. r)
        λ who nft _ _ _ _. same_counters s _ refl refl refl r
  dispatch-InRange origin (order_sell n start_price end_price keep) s r =
      sell_cases h c (After (InRange c)) origin s n start_price end_price keep (λ e _. r)
        λ who g. record { nft_id_le = r.nft_id_le; order_id_le = g.room; block_le = r.block_le }
  dispatch-InRange origin (order_buy o price) s r =
      buy_cases h c (After (InRange c)) origin s o price (λ e _. r) (λ _ _ _ _ _ _ _. tt)
        (λ who order l paid g _ _ _.
          released-InRange o (s.bids o) _
            (same_counters s (completed order who paid s) refl refl refl r))
        (λ who order l g _ _. outbid-InRange o (s.bids o) _ l s r)
  dispatch-InRange origin (order_settlement o) s r =
      settlement_cases h c (After (InRange c)) origin s o (λ e _. r) (λ _ _ _ _ _ _ _ _ _. tt)
        (λ who order g _ e. same_counters s _ refl refl refl r)
        (λ who order bid _ g _ e _. released-InRange o (some bid) s r)
        (λ who order bid l paid g _ _ _ _. same_counters s _ refl refl refl r)
  dispatch-InRange origin (vote_order o amount) s r =
      vote_cases h c (After (InRange c)) origin s o amount (λ e _. r)
        λ who order l g _ _ _ _. same_counters s _ refl refl refl r

  Step-InRange : (s t : State L) → Step h c s t → InRange c s → InRange c t
  Step-InRange s t (calls origin call e) r =
      ends_after (InRange c) _ t e (dispatch-InRange origin call s r)
  Step-InRange s t (next_block room e) r =
      rw e (record { nft_id_le = r.nft_id_le; order_id_le = r.order_id_le; block_le = room })
  Step-InRange s t (outside l same e) r = rw e (same_counters s _ refl refl refl r)

  reach-InRange :
      (block : ℕ) (l : L) (t : State L)
      → block ≤ c.max_block_number
      → Reach h c (genesis c block l) t
      → InRange c t
  reach-InRange block l t room here = record {
    nft_id_le = omega arith;
    order_id_le = omega arith;
    block_le = room;
  }
  reach-InRange block l t room (next {t = u} r step) =
      Step-InRange u t step (reach-InRange block l u room r)

  -- In every state that a chain reaches from a block number of its type, the block number and
  -- the next identifiers are values of their types, and so are the identifiers of all items and
  -- listed orders and the first blocks of all orders.
  pub reach-IsTyped :
      (block : ℕ) (l : L) (t : State L)
      → block ≤ c.max_block_number
      → Reach h c (genesis c block l) t
      → IsTyped c t
  reach-IsTyped block l t room r =
      let w : WellFormed c t = reach-WellFormed h c block l t r in
      let k : InRange c t = reach-InRange block l t room r in
      record {
        counters = k;
        items = λ n e. omega (arith, w.item_fresh n e, k.nft_id_le);
        listings = λ n o e.
            let (order, found, _) = w.item_listed n o e in
            let good : GoodOrder c t o order = w.order_good o order found in
            omega (arith, good.fresh, k.order_id_le);
        starts = λ o order e.
            let good : GoodOrder c t o order = w.order_good o order e in
            omega (arith, good.started, k.block_le);
      }
