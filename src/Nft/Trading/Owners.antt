-- ===== src/Nft/Trading/Owners.antt =====
-- Who can move an item of pallets/nft/src/lib.rs.
use nft101_rust.Prelude.{
  ℕ, ◌≡◌, ◌≢◌, refl, true, is_some, Option, none, some, ◌⊎◌, inl, inr, update, update_self,
  update_ne, arith, ap, ◌∙◌,
}
use native.Mathlib.Decide.{ℕ_discrete}
use nft101_rust.Frame.{Host, accepted}
use nft101_rust.Nft.Types.{State, Order, Config, Event}
use nft101_rust.Nft.States.{removed, transferred, logged, completed, released, released_rest}
use nft101_rust.Nft.Cases.{
  create_cases, remove_cases, transfer_cases, sell_cases, buy_cases, settlement_cases, vote_cases,
}
use nft101_rust.Nft.Dispatch.{
  Call, create, remove, transfer, order_sell, order_buy, order_settlement, vote_order, dispatch,
  After,
}
use nft101_rust.Nft.WellFormed.{WellFormed, GoodOrder}

module _ {O L F N : Type 0} (h : Host O L F N) (c : Config F) where
  -- How an item may have changed hands: not at all; by its owner, while it was not listed; or by the end of the order that listed it.
  abbrev pub Moved : O → ℕ → State L → State L → Type 0
  Moved origin n s t =
      (t.nft_account n ≡ s.nft_account n)
      ⊎ ((h.ensure_signed origin ≡ accepted (s.nft_account n)) × (s.nft_order n ≡ none))
      ⊎ ((is_some (s.nft_order n) ≡ true) × (t.nft_order n ≡ none))

  Moved-by_owner :
      (origin : O) (who n m : ℕ) (s t : State L)
      → h.ensure_signed origin ≡ accepted who
      → s.nft_account n ≡ who
      → s.nft_order n ≡ none
      → (m ≢ n → t.nft_account m ≡ s.nft_account m)
      → Moved origin m s t
  Moved-by_owner origin who n m s t sg owner free keep = elim (ℕ_discrete m n) [
    | yes p ↦ rw p (inr (inl (rw owner sg, free)))
    | no p ↦ inl (keep p)
  ]

  Moved-by_sale :
      (origin : O) (order : Order) (buyer m : ℕ) (s t : State L)
      → is_some (s.nft_order order.nft_id) ≡ true
      → t.nft_account m ≡ update s.nft_account order.nft_id buyer m
      → t.nft_order m ≡ update s.nft_order order.nft_id none m
      → Moved origin m s t
  Moved-by_sale origin order buyer m s t listing e1 e2 = elim (ℕ_discrete m order.nft_id) [
    | yes p ↦ inr (inr (rw p listing, e2 ∙ rw p (update_self s.nft_order order.nft_id none)))
    | no p ↦ inl (e1 ∙ update_ne s.nft_account order.nft_id buyer m p)
  ]

  -- An existing item changes hands only by a call of its owner while it is not listed, or by the end of the order that
  -- listed it, whoever calls and whether the call succeeds or fails.
  pub dispatch-Moved :
      (origin : O) (call : Call) (n : ℕ) (s : State L)
      → WellFormed c s
      → is_some (s.nfts n) ≡ true
      → After (Moved origin n s) (dispatch h c origin call s)
  unfolding dispatch
  dispatch-Moved origin (create title url desc) n s w exists =
      create_cases h c (After (Moved origin n s)) origin s title url desc (λ e _. inl refl)
        λ who sg room. inl (ground (arith, w.item_fresh n exists))
  dispatch-Moved origin (remove m) n s w exists =
      remove_cases h c (After (Moved origin n s)) origin s m (λ e _. inl refl)
        λ who nft sg found owner free.
          Moved-by_owner origin who m n s (removed c.default_account who m s) sg owner free
            (update_ne s.nft_account m c.default_account n)
  dispatch-Moved origin (transfer target m) n s w exists =
      transfer_cases h c (After (Moved origin n s)) origin s target m (λ e _. inl refl)
        λ who nft sg found owner free.
          Moved-by_owner origin who m n s (transferred who target m s) sg owner free
            (update_ne s.nft_account m target n)
  dispatch-Moved origin (order_sell m start_price end_price keep) n s w exists =
      sell_cases h c (After (Moved origin n s)) origin s m start_price end_price keep
        (λ e _. inl refl) λ who g. inl refl
  dispatch-Moved origin (order_buy o price) n s w exists =
      buy_cases h c (After (Moved origin n s)) origin s o price (λ e _. inl refl)
        (λ _ _ _ _ _ _ _. tt)
        (λ who order l paid g _ _ _.
          let good : GoodOrder c s o order = w.order_good o order g.found in
          let rest = released_rest h o (s.bids o) (completed order who paid s) in
          Moved-by_sale origin order who n s (released h o (s.bids o) (completed order who paid s))
            (ap is_some good.listed_as) (ap (λ (m : ℕ → ℕ). m n) rest.0)
            (ap (λ (m : ℕ → Option ℕ). m n) rest.1))
        (λ who order l g _ _.
          inl (ap (λ (m : ℕ → ℕ). m n) (released_rest h o (s.bids o) (record s { ledger = l })).0))
  dispatch-Moved origin (order_settlement o) n s w exists =
      settlement_cases h c (After (Moved origin n s)) origin s o (λ e _. inl refl)
        (λ _ _ _ _ _ _ _ _ _. tt) (λ _ _ _ _ _. inl refl) (λ _ _ bid _ _ _ e _. inl refl)
        (λ who order bid l paid g _ _ _ _.
          let good : GoodOrder c s o order = w.order_good o order g.found in
          Moved-by_sale origin order bid.owner n s
            (logged (Event.order_complete bid.owner o)
              (completed order bid.owner paid (released h o (some bid) s)))
            (ap is_some good.listed_as) refl refl)
  dispatch-Moved origin (vote_order o amount) n s w exists =
      vote_cases h c (After (Moved origin n s)) origin s o amount (λ e _. inl refl)
        λ _ _ _ _ _ _ _ _. inl refl
