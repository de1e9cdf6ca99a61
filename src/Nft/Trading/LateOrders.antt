-- ===== src/Nft/Trading/LateOrders.antt =====
-- An order of pallets/nft/src/lib.rs with a vote whose time left is zero: its payout, and the end of another order.
use nft101_rust.Prelude.{
  ℕ, ◌≡◌, ◌≢◌, none, some, List, [], ◌∷◌, ◌++◌, inl, inr, update, update_ne, sym, ◌∙◌,
}
use nft101_rust.Frame.{Host}
use nft101_rust.Nft.Types.{State, Order, Vote, Config}
use nft101_rust.Nft.Payout.{algorithm}
use nft101_rust.Nft.WellFormed.{WellFormed}
use nft101_rust.Nft.Payout.Panics.{HasLateVote, algorithm_late}

pub HasLateVote-append : (vs : List Vote) (v : Vote) → HasLateVote vs → HasLateVote (vs ++ v ∷ [])
HasLateVote-append [] v late = absurd late
HasLateVote-append (x ∷ vs) v (inl e) = inl e
HasLateVote-append (x ∷ vs) v (inr e) = inr (HasLateVote-append vs v e)

pub HasLateVote-last :
    (vs : List Vote) (v : Vote) → v.keep_block_num ≡ 0 → HasLateVote (vs ++ v ∷ [])
HasLateVote-last [] v e = inl e
HasLateVote-last (x ∷ vs) v e = inr (HasLateVote-last vs v e)

module _ {O L F N : Type 0} (h : Host O L F N) (c : Config F) where
  -- What would pay the voters of such an order panics.
  pub unpaid :
      (o j price : ℕ) (order x : Order) (l : L) (s : State L)
      → WellFormed c s
      → HasLateVote (s.votes o)
      → o ≡ j
      → s.orders j ≡ some x
      → algorithm h c x price (s.votes x.order_id) l ≡ none
  unpaid o j price order x l s w late p there =
      let id : x.order_id ≡ o = (w.order_good j x there).same_id ∙ sym p in
      algorithm_late h c x price (s.votes x.order_id) l (rw id late)

  pub unpayable :
      (o j price : ℕ) (order x : Order) (l paid : L) (s : State L)
      → WellFormed c s
      → HasLateVote (s.votes o)
      → o ≡ j
      → s.orders j ≡ some x
      → algorithm h c x price (s.votes x.order_id) l ≢ some paid
  unpayable o j price order x l paid s w late p there pays =
      cc (unpaid o j price order x l s w late p there, pays)

  -- The end of another order leaves this one.
  pub untouched :
      (o j : ℕ) (order x : Order) (s : State L)
      → WellFormed c s
      → s.orders o ≡ some order
      → HasLateVote (s.votes o)
      → o ≢ j
      → s.orders j ≡ some x
      → (update s.orders x.order_id none o ≡ some order)
        × HasLateVote (update s.votes x.order_id [] o)
  untouched o j order x s w found late p there =
      let other : o ≢ x.order_id = λ q. p (q ∙ (w.order_good j x there).same_id) in
      (
        update_ne s.orders x.order_id none o other ∙ found,
        rw (update_ne s.votes x.order_id [] o other) late,
      )
