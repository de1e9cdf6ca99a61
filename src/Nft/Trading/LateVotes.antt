-- ===== src/Nft/Trading/LateVotes.antt =====
-- A vote in the last block of an auction of pallets/nft/src/lib.rs, whose time left is zero.
use nft101_rust.Prelude.{
  ℕ, ◌+◌, ◌-◌, ◌≤◌, ◌<◌, ◌≡◌, ◌≢◌, refl, Option, none, some, List, [], ◌∷◌, ◌++◌, ◌⊎◌, inl, inr,
  update_self, update_ne, arith, ap, sym, subst, ◌∙◌,
}
use native.Mathlib.Decide.{ℕ_discrete}
use nft101_rust.Frame.{AccountId, Host, accepted}
use nft101_rust.Nft.Types.{State, Order, Bid, Vote, Config}
use nft101_rust.Nft.States.{completed, released_rest}
use mathlib.Core.Option.{some-injective}
use nft101_rust.Nft.Cases.{
  create_cases, remove_cases, transfer_cases, sell_cases, buy_cases, settlement_cases, vote_cases,
}
use nft101_rust.Nft.Dispatch.{
  Call, create, remove, transfer, order_sell, order_buy, order_settlement, vote_order, dispatch,
  After, Ends, succeeds, errs,
}
use nft101_rust.Nft.WellFormed.{WellFormed, GoodOrder}
use nft101_rust.Nft.Effects.{Outcome, done, failed, panicked}
use nft101_rust.Nft.Guards.{OnOrder, BuyGuards}
use nft101_rust.Nft.Acceptance.Outcomes.{Panics-panicked}
use nft101_rust.Nft.Trading.{OnSuccess}
use nft101_rust.Nft.Payout.Panics.{HasLateVote}
use nft101_rust.Nft.Trading.LateOrders.{
  HasLateVote-append, HasLateVote-last, unpaid, unpayable, untouched,
}

module _ {O L F N : Type 0} (h : Host O L F N) (c : Config F) where
  -- A vote in the last block of an auction is accepted with no time left.
  pub last_block_vote :
      (origin : O) (o amount : ℕ) (order : Order) (s : State L)
      → s.orders o ≡ some order
      → s.block_number ≡ order.create_block + order.keep_block_num
      → OnSuccess (λ t. HasLateVote (t.votes o)) (dispatch h c origin (vote_order o amount) s)
  unfolding dispatch
  last_block_vote origin o amount order s found last =
      vote_cases h c (OnSuccess (λ t. HasLateVote (t.votes o))) origin s o amount (λ e _. tt)
        λ who x l g _ _ _ _.
          let same : x ≡ order = some-injective _ _ (sym g.found ∙ found) in
          rw (update_self s.votes o) (HasLateVote-last (s.votes o) _ (rw same (omega arith)))

  -- The order is open with a late vote, or it ended without a bid and its item stayed where it was.
  abbrev pub IsUnsold : ℕ → Order → State L → State L → Type 0
  IsUnsold o order s t =
      ((t.orders o ≡ some order) × HasLateVote (t.votes o))
      ⊎ ((t.orders o ≡ none)
          × (s.bids o ≡ none)
          × (t.nft_account order.nft_id ≡ s.nft_account order.nft_id))

  stays-IsUnsold :
      (origin : O) (call : Call) (o : ℕ) (order : Order) (s : State L)
      → WellFormed c s
      → s.orders o ≡ some order
      → HasLateVote (s.votes o)
      → After (IsUnsold o order s) (dispatch h c origin call s)
  unfolding dispatch
  stays-IsUnsold origin (create title url desc) o order s w found late =
      create_cases h c (After (IsUnsold o order s)) origin s title url desc
        (λ e _. inl (found, late)) λ who sg room. inl (found, late)
  stays-IsUnsold origin (remove n) o order s w found late =
      remove_cases h c (After (IsUnsold o order s)) origin s n (λ e _. inl (found, late))
        λ who nft sg _ owner free. inl (found, late)
  stays-IsUnsold origin (transfer target n) o order s w found late =
      transfer_cases h c (After (IsUnsold o order s)) origin s target n (λ e _. inl (found, late))
        λ who nft sg _ owner free. inl (found, late)
  stays-IsUnsold origin (order_sell n start_price end_price keep) o order s w found late =
      let good : GoodOrder c s o order = w.order_good o order found in
      sell_cases h c (After (IsUnsold o order s)) origin s n start_price end_price keep
        (λ e _. inl (found, late))
        λ who g.
          let other : o ≢ s.next_order_id = λ e. absurd (omega (arith, good.fresh)) in
          inl (
            update_ne s.orders s.next_order_id _ o other ∙ found,
            rw (update_ne s.votes s.next_order_id [] o other) late,
          )
  stays-IsUnsold origin (order_buy j price) o order s w found late =
      buy_cases h c (After (IsUnsold o order s)) origin s j price (λ e _. inl (found, late))
        (λ _ _ _ _ _ _ _. tt)
        (λ who x l paid g _ _ pays. elim (ℕ_discrete o j) [
          | yes p ↦ absurd (unpayable h c o j x.end_price order x l paid s w late p g.found pays)
          | no p ↦
              let rest = released_rest h j (s.bids j) (completed x who paid s) in
              let kept = untouched h c o j order x s w found late p g.found in
              inl (
                ap (λ (m : ℕ → Option Order). m o) rest.2 ∙ kept.0,
                subst HasLateVote (sym (ap (λ (m : ℕ → List Vote). m o) rest.3)) kept.1,
              )
        ])
        (λ who x l g _ _.
          let rest = released_rest h j (s.bids j) (record s { ledger = l }) in
          inl (
            ap (λ (m : ℕ → Option Order). m o) rest.2 ∙ found,
            subst HasLateVote (sym (ap (λ (m : ℕ → List Vote). m o) rest.3)) late,
          ))
  stays-IsUnsold origin (order_settlement j) o order s w found late =
      settlement_cases h c (After (IsUnsold o order s)) origin s j (λ e _. inl (found, late))
        (λ _ _ _ _ _ _ _ _ _. tt)
        (λ who x g _ e. elim (ℕ_discrete o j) [
          | yes p ↦ inr (rw p (update_self s.orders j none), rw p e, refl)
          | no p ↦ inl (update_ne s.orders j none o p ∙ found, rw (update_ne s.votes j [] o p) late)
        ])
        (λ who x bid _ _ _ _ _. inl (found, late))
        (λ who x bid l paid g _ _ _ pays. elim (ℕ_discrete o j) [
          | yes p ↦ absurd (unpayable h c o j bid.price order x l paid s w late p g.found pays)
          | no p ↦ inl (untouched h c o j order x s w found late p g.found)
        ])
  stays-IsUnsold origin (vote_order j amount) o order s w found late =
      vote_cases h c (After (IsUnsold o order s)) origin s j amount (λ e _. inl (found, late))
        λ who x l _ _ _ _ _. inl (
          found,
          elim (ℕ_discrete o j) [
            | yes p ↦
                rw (p, update_self s.votes j) (HasLateVote-append (s.votes j) _ (rw p at late))
            | no p ↦ rw (update_ne s.votes j (s.votes j ++ _ ∷ []) o p) late
          ],
        )

  -- The call has all that a sale of the order needs, up to the payment of the price, which the ledger accepts.
  abbrev pub WouldSell : O → Call → ℕ → State L → Type 0
  WouldSell origin (order_buy j price) o s =
      (o ≡ j)
      × ((who : AccountId) × (x : Order) × (l : L) × BuyGuards h c origin s j price who x
          × (x.end_price ≤ price)
          × (h.currency.transfer who x.owner x.end_price s.ledger ≡ accepted l))
  WouldSell origin (order_settlement j) o s =
      (o ≡ j)
      × ((who : AccountId) × (x : Order) × (bid : Bid) × (l : L) × OnOrder h origin s j who x
          × (x.keep_block_num < s.block_number - x.create_block)
          × (s.bids j ≡ some bid)
          × (h.currency.transfer bid.owner x.owner bid.price
                (h.currency.unreserve bid.owner bid.price s.ledger)
              ≡ accepted l))
  WouldSell origin _ o s = ⊥

  sale_panics :
      (origin : O) (call : Call) (o : ℕ) (order : Order) (s : State L)
      → WellFormed c s
      → HasLateVote (s.votes o)
      → WouldSell origin call o s
      → dispatch h c origin call s ≡ panicked
  sale_panics origin (create _ _ _) o order s w late p = absurd p
  sale_panics origin (remove _) o order s w late p = absurd p
  sale_panics origin (transfer _ _) o order s w late p = absurd p
  sale_panics origin (order_sell _ _ _ _) o order s w late p = absurd p
  sale_panics origin (vote_order _ _) o order s w late p = absurd p
  sale_panics origin (order_buy j price) o order s w late (p, (who, x, l, g, le, moved)) =
      Panics-panicked h c origin (order_buy j price) s
        (who, x, g, le, (l, moved, unpaid h c o j x.end_price order x l s w late p g.found))
  sale_panics origin (order_settlement j) o order s w late
        (p, (who, x, bid, l, on, over, best, moved)) =
      Panics-panicked h c origin (order_settlement j) s (
        who,
        x,
        bid,
        on,
        over,
        best,
        (l, moved, unpaid h c o j bid.price order x l s w late p on.found),
      )

  outcome_split :
      (Would : Type 0) (P : State L → Type 0) (r : Outcome L (Unit {0}))
      → After P r
      → (Would → r ≡ panicked)
      → (r ≡ panicked) ⊎ ((¬ Would) × ((t : State L) × Ends r t × P t))
  outcome_split Would P (done x t) p panics =
      inr (λ would. ground (arith, panics would), (t, succeeds refl, p))
  outcome_split Would P (failed e t) p panics =
      inr (λ would. ground (arith, panics would), (t, errs e refl, p))
  outcome_split Would P panicked p panics = inl refl

  -- An open order with a late vote, one with no time left, is never sold in a well-formed state. Whatever call is made,
  -- it panics; or it lacks something that a sale of the order needs, up to the payment of the price, which the ledger
  -- accepts, and it ends in a state where the order is still open with the late vote, or had no bid and was cancelled,
  -- with its item left where it was.
  pub late_never_sold :
      (origin : O) (call : Call) (o : ℕ) (order : Order) (s : State L)
      → WellFormed c s
      → s.orders o ≡ some order
      → HasLateVote (s.votes o)
      → (dispatch h c origin call s ≡ panicked)
        ⊎ ((¬ WouldSell origin call o s)
            × ((t : State L) × Ends (dispatch h c origin call s) t × IsUnsold o order s t))
  late_never_sold origin call o order s w found late =
      outcome_split (WouldSell origin call o s) (IsUnsold o order s) (dispatch h c origin call s)
        (stays-IsUnsold origin call o order s w found late)
        (sale_panics origin call o order s w late)
