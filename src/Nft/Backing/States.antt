-- ===== src/Nft/Backing/States.antt =====
-- The reserved balances at the final states of the calls of pallets/nft/src/lib.rs.
use nft101_rust.Prelude.{
  ℕ, ◌+◌, ◌≤◌, ◌<◌, ◌≡◌, ◌≢◌, refl, Option-cases, inl, inr, Option, none, some, List, [], ◌∷◌, ◌++◌,
  update, update_self, update_ne, arith, ap, sym,
}
use nft101_rust.Prelude.Sums.{
  sum_below, sum_below-ext, sum_below-change, sum_below-ge, sum_below-add_one,
}
use nft101_rust.Frame.{AccountId, Host, accepted}
use nft101_rust.Nft.Types.{State, Order, Bid, Vote, Config}
use nft101_rust.Nft.States.{listed, voted, outbid, released}
use nft101_rust.Nft.WellFormed.{WellFormed}
use nft101_rust.Nft.Backing.{bid_held, votes_held, votes_held-append, held, Backed}
use nft101_rust.Nft.Backing.Unlocking.{unreserve_exact}

module _ {O L F N : Type 0} (h : Host O L F N) (c : Config F) (others : AccountId → ℕ) where
  open h.currency use {reserved_balance, reserve_moves, transfer_moves}

  -- What an order below the bound holds is reserved.
  pub held_reserved :
      (s : State L) (a : AccountId) (o : ℕ)
      → Backed h others s
      → o < s.next_order_id
      → held s a o ≤ reserved_balance a s.ledger
  held_reserved s a o b lt = omega (arith, b a, sum_below-ge s.next_order_id o (held s a) lt)

  -- Where only what one order holds changes, and the ledger follows it, the balances stay covered.
  pub rebalance :
      (s t : State L) (o : ℕ)
      → Backed h others s
      → o < s.next_order_id
      → t.next_order_id ≡ s.next_order_id
      → ((a : AccountId) (j : ℕ) → j ≢ o → held s a j ≡ held t a j)
      → ((a : AccountId)
          → reserved_balance a t.ledger + held s a o ≡ reserved_balance a s.ledger + held t a o)
      → Backed h others t
  rebalance s t o b lt same keep moved a = rw same (
      omega
        (arith, b a, moved a, sum_below-change s.next_order_id o (held s a) (held t a) lt (keep a)))

  -- An identifier that was not given out yet has no bid and no votes.
  unopened :
      (s : State L) (o : ℕ)
      → WellFormed c s
      → s.next_order_id ≤ o
      → (s.bids o ≡ none) × (s.votes o ≡ [])
  unopened s o w le =
      let closed : s.orders o ≡ none = elim (Option-cases (s.orders o)) [
        | inl e ↦ e
        | inr (order, e) ↦ absurd (omega (arith, (w.order_good o order e).fresh))
      ] in
      (
        elim (Option-cases (s.bids o)) [
          | inl e ↦ e
          | inr (bid, e) ↦ cc ((w.bid_good o bid e).1, closed)
        ],
        w.votes_open o closed,
      )

  pub listed-Backed :
      (order : Order) (s : State L)
      → order.order_id ≡ s.next_order_id
      → WellFormed c s
      → Backed h others s
      → Backed h others (listed order s)
  listed-Backed order s id w b a =
      let t : State L = listed order s in
      let fresh = unopened s order.order_id w (omega (arith, id)) in
      let empty : held t a order.order_id ≡ 0 = ground (arith, fresh.0) in
      let same : sum_below order.order_id (held t a) ≡ sum_below order.order_id (held s a) =
        sum_below-ext order.order_id (held t a) (held s a)
          (λ j lt. ground (arith, update_ne s.votes order.order_id [] j)) in
      omega (
        arith,
        b a,
        sum_below-add_one order.order_id (held t a),
        empty,
        same,
        ap (λ (n : ℕ). sum_below n (held s a)) id,
      )

  pub voted-Backed :
      (o : ℕ) (vote : Vote) (l : L) (s : State L)
      → o < s.next_order_id
      → h.currency.reserve vote.owner vote.amount s.ledger ≡ accepted l
      → Backed h others s
      → Backed h others (voted o vote l s)
  voted-Backed o vote l s lt locks b =
      rebalance s (voted o vote l s) o b lt refl
        (λ a j ne.
          ap (λ (vs : List Vote). bid_held a (s.bids j) + votes_held a vs)
            (sym (update_ne s.votes o (s.votes o ++ vote ∷ []) j ne)))
        (λ a.
          rw
            (
              update_self s.votes o (s.votes o ++ vote ∷ []),
              votes_held-append a (s.votes o) (vote ∷ []),
            )
            (omega (arith, reserve_moves vote.owner vote.amount s.ledger l a locks)))

  pub released-Backed :
      (o : ℕ) (bid : Bid) (s : State L)
      → s.bids o ≡ some bid
      → o < s.next_order_id
      → Backed h others s
      → Backed h others (released h o (some bid) s)
  released-Backed o bid s e lt b =
      rebalance s (released h o (some bid) s) o b lt refl
        (λ a j ne.
          ap (λ (x : Option Bid). bid_held a x + votes_held a (s.votes j))
            (sym (update_ne s.bids o none j ne)))
        (λ a.
          let enough = held_reserved s bid.owner o b lt in
          rw (update_self s.bids o none, e)
            (omega
              (arith, unreserve_exact h bid.owner bid.price s.ledger a (ground (arith, enough)))))

  pub outbid-Backed :
      (o : ℕ) (b : Option Bid) (bid : Bid) (l : L) (s : State L)
      → s.bids o ≡ b
      → o < s.next_order_id
      → h.currency.reserve bid.owner bid.price s.ledger ≡ accepted l
      → Backed h others s
      → Backed h others (outbid h o b bid l s)
  outbid-Backed o none bid l s e lt locks k =
      rebalance s (outbid h o none bid l s) o k lt refl
        (λ a j ne.
          ap (λ (x : Option Bid). bid_held a x + votes_held a (s.votes j))
            (sym (update_ne s.bids o (some bid) j ne)))
        (λ a.
          rw (update_self s.bids o (some bid), e)
            (omega (arith, reserve_moves bid.owner bid.price s.ledger l a locks)))
  outbid-Backed o (some old) bid l s e lt locks k =
      rebalance s (outbid h o (some old) bid l s) o k lt refl
        (λ a j ne.
          ap (λ (x : Option Bid). bid_held a x + votes_held a (s.votes j)) (ground (arith)))
        (λ a.
          let enough = held_reserved s old.owner o k lt in
          let covered : old.price ≤ reserved_balance old.owner l =
            ground (arith, enough, reserve_moves bid.owner bid.price s.ledger l old.owner locks) in
          rw (update_self (update s.bids o none) o (some bid), e)
            (omega (
              arith,
              reserve_moves bid.owner bid.price s.ledger l a locks,
              unreserve_exact h old.owner old.price l a covered,
            )))
