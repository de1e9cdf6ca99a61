-- ===== src/Nft/Backing/Always.antt =====
-- The reserved balances after every call of pallets/nft/src/lib.rs, and throughout the life of a chain.
use nft101_rust.Prelude.{ℕ, ◌≡◌, refl, arith, ◌∙◌}
use nft101_rust.Prelude.Sums.{sum_below-zero}
use nft101_rust.Frame.{AccountId, Host}
use nft101_rust.Nft.Types.{State, Config}
use nft101_rust.Nft.Guards.{new_order}
use nft101_rust.Nft.Cases.{
  create_cases, remove_cases, transfer_cases, sell_cases, buy_cases, settlement_cases, vote_cases,
}
use nft101_rust.Nft.Dispatch.{
  Call, create, remove, transfer, order_sell, order_buy, order_settlement, vote_order, dispatch,
  ends_after, Step, calls, next_block, outside, Reach, here, next, genesis, After,
}
use nft101_rust.Nft.WellFormed.{WellFormed, GoodOrder}
use nft101_rust.Nft.WellFormed.Always.{reach-WellFormed}
use nft101_rust.Nft.Backing.{held, Backed}
use nft101_rust.Nft.Backing.States.{listed-Backed, voted-Backed, released-Backed, outbid-Backed}
use nft101_rust.Nft.Backing.Closed.{sold-Backed, settled-Backed, cancelled-Backed}

module _ {O L F N : Type 0} (h : Host O L F N) (c : Config F) (others : AccountId → ℕ) where
  open h.currency use {reserved_balance, reserve_moves, transfer_moves}

  -- Every call keeps the bids and votes covered, also one that fails.
  pub dispatch-Backed :
      (origin : O) (call : Call) (s : State L)
      → WellFormed c s
      → Backed h others s
      → After (Backed h others) (dispatch h c origin call s)
  unfolding dispatch
  dispatch-Backed origin (create title url desc) s w b =
      create_cases h c (After (Backed h others)) origin s title url desc (λ e _. b) λ who sg room. b
  dispatch-Backed origin (remove n) s w b =
      remove_cases h c (After (Backed h others)) origin s n (λ e _. b)
        λ who nft sg found owner free. b
  dispatch-Backed origin (transfer target n) s w b =
      transfer_cases h c (After (Backed h others)) origin s target n (λ e _. b)
        λ who nft sg found owner free. b
  dispatch-Backed origin (order_sell n start_price end_price keep) s w b =
      sell_cases h c (After (Backed h others)) origin s n start_price end_price keep (λ e _. b)
        λ who g. listed-Backed h c others (new_order who n start_price end_price keep s) s refl w b
  dispatch-Backed origin (order_buy o price) s w b =
      buy_cases h c (After (Backed h others)) origin s o price (λ e _. b) (λ _ _ _ _ _ _ _. tt)
        (λ who order l paid g _ moves pays.
          let good : GoodOrder c s o order = w.order_good o order g.found in
          sold-Backed h c others o (s.bids o) order who order.end_price l paid s refl good.same_id
            good.fresh moves pays b)
        (λ who order l g _ locks.
          let good : GoodOrder c s o order = w.order_good o order g.found in
          outbid-Backed h c others o (s.bids o) _ l s refl good.fresh locks b)
  dispatch-Backed origin (order_settlement o) s w b =
      settlement_cases h c (After (Backed h others)) origin s o (λ e _. b) (λ _ _ _ _ _ _ _ _ _. tt)
        (λ who order g _ e.
          cancelled-Backed h c others o order s e (w.order_good o order g.found).fresh b)
        (λ who order bid _ g _ e _.
          released-Backed h c others o bid s e (w.order_good o order g.found).fresh b)
        (λ who order bid l paid g _ e moves pays.
          let good : GoodOrder c s o order = w.order_good o order g.found in
          settled-Backed h c others o bid order l paid s e good.same_id good.fresh moves pays b)
  dispatch-Backed origin (vote_order o amount) s w b =
      vote_cases h c (After (Backed h others)) origin s o amount (λ e _. b)
        λ who order l g _ _ _ locks.
          voted-Backed h c others o _ l s (w.order_good o order g.found).fresh locks b

  pub Step-Backed :
      (s t : State L) → Step h c s t → WellFormed c s → Backed h others s → Backed h others t
  Step-Backed s t (calls origin call e) w b =
      ends_after (Backed h others) _ t e (dispatch-Backed origin call s w b)
  Step-Backed s t (next_block room e) w b = rw e b
  Step-Backed s t (outside l same e) w b = rw e (λ a. same a ∙ b a)

  genesis-Backed :
      (block : ℕ) (l : L)
      → ((a : AccountId) → reserved_balance a l ≡ others a)
      → Backed h others (genesis c block l)
  genesis-Backed block l start a =
      omega (arith, start a, sum_below-zero (held (genesis c block l) a))

  -- In every state that a chain reaches, each account's reserved balance is what other pallets had
  -- reserved of it in the beginning and what its open bids and votes hold.
  pub reach-Backed :
      (block : ℕ) (l : L) (t : State L)
      → ((a : AccountId) → reserved_balance a l ≡ others a)
      → Reach h c (genesis c block l) t
      → Backed h others t
  reach-Backed block l t start here = genesis-Backed block l start
  reach-Backed block l t start (next {t = u} r step) =
      Step-Backed u t step (reach-WellFormed h c block l u r) (reach-Backed block l u start r)
