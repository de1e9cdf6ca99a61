-- ===== src/Nft/Market/History.antt =====
-- The life of an item of pallets/nft/src/lib.rs, over the history of a chain.
use native.Mathlib.Decide.{ℕ_discrete}
use nft101_rust.Prelude.{ℕ, ◌≤◌, ◌≡◌, refl, Option, some, none, List, [], ◌∷◌, arith}
use nft101_rust.Frame.{Host}
use nft101_rust.Nft.Types.{State, Config, Bid}
use nft101_rust.Nft.States.{completed, released}
use nft101_rust.Nft.Cases.{
  create_cases, remove_cases, transfer_cases, sell_cases, buy_cases, settlement_cases, vote_cases,
}
use nft101_rust.Nft.Dispatch.{
  Call, create, remove, transfer, order_sell, order_buy, order_settlement, vote_order, dispatch,
  After, ends_after, Step, calls, next_block, outside, Reach, here, next, genesis,
}
use nft101_rust.Nft.WellFormed.{WellFormed}
use nft101_rust.Nft.WellFormed.Always.{reach-WellFormed}
use nft101_rust.Nft.Market.{Item, absent, Change, stays, view, Refines}
use nft101_rust.Nft.Market.Refined.{dispatch-Refines}

-- What an item has been, newest first and each with the block, is a life: it did not exist in the beginning, no block
-- comes before an earlier one, and each time it has changed as it may at the block before.
abbrev pub IsLife : List (ℕ × Item) → Type 0
IsLife [] = ⊥
IsLife ((block, item) ∷ []) = item ≡ absent
IsLife ((after, j) ∷ (before, i) ∷ rest) =
    (before ≤ after) × Change before i j × IsLife ((before, i) ∷ rest)

module _ {O L F N : Type 0} (h : Host O L F N) (c : Config F) where
  -- The item after each step of a history, newest first.
  abbrev pub lived : {s t : State L} → ℕ → Reach h c s t → List (ℕ × Item)
  lived {s} n here = (s.block_number, view s n) ∷ []
  lived n (next {u = t} r step) = (t.block_number, view t n) ∷ lived n r

  Refines-Change :
      (s t : State L) (n : ℕ) → Refines s t → Change s.block_number (view s n) (view t n)
  Refines-Change s t n (m, change, rest) = elim (ℕ_discrete n m) [
    | yes e ↦ rw e change
    | no ne ↦ rw (rest n ne) stays
  ]

  released-block_number :
      (o : ℕ) (b : Option Bid) (s : State L) → (released h o b s).block_number ≡ s.block_number
  released-block_number o none s = refl
  released-block_number o (some bid) s = refl

  -- The calls leave the block number.
  dispatch-block_number :
      (origin : O) (call : Call) (s : State L)
      → After (λ t. t.block_number ≡ s.block_number) (dispatch h c origin call s)
  unfolding dispatch
  dispatch-block_number origin (create title url desc) s =
      create_cases h c (After (λ t. t.block_number ≡ s.block_number)) origin s title url desc
        (λ e _. refl) λ who sg room. refl
  dispatch-block_number origin (remove n) s =
      remove_cases h c (After (λ t. t.block_number ≡ s.block_number)) origin s n (λ e _. refl)
        λ who nft sg found owner free. refl
  dispatch-block_number origin (transfer target n) s =
      transfer_cases h c (After (λ t. t.block_number ≡ s.block_number)) origin s target n
        (λ e _. refl) λ who nft sg found owner free. refl
  dispatch-block_number origin (order_sell n start_price end_price keep) s =
      sell_cases h c (After (λ t. t.block_number ≡ s.block_number)) origin s n start_price end_price
        keep (λ e _. refl) λ who g. refl
  dispatch-block_number origin (order_buy o price) s =
      buy_cases h c (After (λ t. t.block_number ≡ s.block_number)) origin s o price (λ e _. refl)
        (λ _ _ _ _ _ _ _. tt)
        (λ who order l paid g _ _ _.
          released-block_number o (s.bids o) (completed order who paid s))
        (λ who order l g _ _. released-block_number o (s.bids o) (record s { ledger = l }))
  dispatch-block_number origin (order_settlement o) s =
      settlement_cases h c (After (λ t. t.block_number ≡ s.block_number)) origin s o (λ e _. refl)
        (λ _ _ _ _ _ _ _ _ _. tt) (λ who order g _ _. refl) (λ who order bid _ g _ _ _. refl)
        (λ who order bid l paid g _ _ _ _. refl)
  dispatch-block_number origin (vote_order o amount) s =
      vote_cases h c (After (λ t. t.block_number ≡ s.block_number)) origin s o amount (λ e _. refl)
        λ who order l g _ _ _ _. refl

  Step-Change :
      (s t : State L) (n : ℕ)
      → WellFormed c s
      → Step h c s t
      → (s.block_number ≤ t.block_number) × Change s.block_number (view s n) (view t n)
  unfolding view
  Step-Change s t n w (calls origin call e) = (
    omega (
      arith,
      ends_after (λ u. u.block_number ≡ s.block_number) _ t e (dispatch-block_number origin call s),
    ),
    Refines-Change s t n (ends_after (Refines s) _ t e (dispatch-Refines h c s w origin call)),
  )
  Step-Change s t n w (next_block room e) = rw e (omega arith, stays)
  Step-Change s t n w (outside l same e) = rw e (omega arith, stays)

  add_step :
      (s t u : State L) (n : ℕ) (r : Reach h c s t)
      → (t.block_number ≤ u.block_number) × Change t.block_number (view t n) (view u n)
      → IsLife (lived n r)
      → IsLife ((u.block_number, view u n) ∷ lived n r)
  add_step s t u n here change life = (change.0, change.1, life)
  add_step s t u n (next r step) change life = (change.0, change.1, life)

  -- In every history of a chain, whatever calls, blocks and outside changes it is made of, what an item
  -- is after each of the steps makes a life: it does not exist in the beginning, and from each step to
  -- the next it stays as it is or changes as an item may at that block, under the conditions of the
  -- change on time and price.
  pub reach-IsLife :
      (block : ℕ) (l : L) (t : State L) (n : ℕ)
      → (r : Reach h c (genesis c block l) t) → IsLife (lived n r)
  unfolding view
  reach-IsLife block l t n here = refl
  reach-IsLife block l t n (next {t = u} r step) =
      add_step (genesis c block l) u t n r
        (Step-Change u t n (reach-WellFormed h c block l u r) step) (reach-IsLife block l u n r)
