-- ===== src/Nft/Trading/Atomic.antt =====
-- What a call of pallets/nft/src/lib.rs that fails leaves behind.
use nft101_rust.Prelude.{◌≡◌, refl, some, ◌⊎◌, inl, inr}
use nft101_rust.Frame.{Host}
use nft101_rust.Nft.Types.{State, Bid, Config}
use nft101_rust.Nft.States.{released}
use nft101_rust.Nft.Cases.{
  create_cases, remove_cases, transfer_cases, sell_cases, buy_cases, settlement_cases, vote_cases,
}
use nft101_rust.Nft.Dispatch.{
  Call, create, remove, transfer, order_sell, order_buy, order_settlement, vote_order, dispatch,
}
use nft101_rust.Nft.Trading.{OnFailure}

module _ {O L F N : Type 0} (h : Host O L F N) (c : Config F) where
  -- What a failing call may leave: the storage as it was, or, after a settlement, without the bid.
  abbrev pub Undone : Call → State L → State L → Type 0
  Undone (order_settlement o) s t =
      (t ≡ s) ⊎ ((bid : Bid) × (s.bids o ≡ some bid) × (t ≡ released h o (some bid) s))
  Undone _ s t = t ≡ s

  -- A call that fails leaves the whole state as it was, without an event. Only a settlement may have released the bid.
  pub dispatch-Undone :
      (origin : O) (call : Call) (s : State L)
      → OnFailure (Undone call s) (dispatch h c origin call s)
  unfolding dispatch
  dispatch-Undone origin (create title url desc) s =
      create_cases h c (OnFailure (λ t. t ≡ s)) origin s title url desc (λ e _. refl)
        λ who sg room. tt
  dispatch-Undone origin (remove n) s =
      remove_cases h c (OnFailure (λ t. t ≡ s)) origin s n (λ e _. refl)
        λ who nft sg found owner free. tt
  dispatch-Undone origin (transfer target n) s =
      transfer_cases h c (OnFailure (λ t. t ≡ s)) origin s target n (λ e _. refl)
        λ who nft sg found owner free. tt
  dispatch-Undone origin (order_sell n start_price end_price keep) s =
      sell_cases h c (OnFailure (λ t. t ≡ s)) origin s n start_price end_price keep (λ e _. refl)
        λ who g. tt
  dispatch-Undone origin (order_buy o price) s =
      buy_cases h c (OnFailure (λ t. t ≡ s)) origin s o price (λ e _. refl) (λ _ _ _ _ _ _ _. tt)
        (λ _ _ _ _ _ _ _ _. tt) (λ _ _ _ _ _ _. tt)
  dispatch-Undone origin (order_settlement o) s =
      settlement_cases h c (OnFailure (Undone (order_settlement o) s)) origin s o (λ e _. inl refl)
        (λ _ _ _ _ _ _ _ _ _. tt) (λ _ _ _ _ _. tt) (λ _ _ bid _ _ _ e _. inr (bid, e, refl))
        (λ _ _ _ _ _ _ _ _ _ _. tt)
  dispatch-Undone origin (vote_order o amount) s =
      vote_cases h c (OnFailure (λ t. t ≡ s)) origin s o amount (λ e _. refl) λ _ _ _ _ _ _ _ _. tt
