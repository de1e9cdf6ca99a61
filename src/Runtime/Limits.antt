-- ===== src/Runtime/Limits.antt =====
-- What the constants of runtime/src/lib.rs mean for the sales of the chain.
use nft101_rust.Prelude.{ℕ, ◌*◌, ◌≤◌, ◌≡◌, some, All, All-imp, arith}
use nft101_rust.Frame.{AccountId, Host}
use nft101_rust.Nft.Types.{State, Order}
use nft101_rust.Nft.Dispatch.{Reach, genesis}
use nft101_rust.Nft.WellFormed.{GoodVote}
use nft101_rust.Nft.WellFormed.Always.{reach-WellFormed}
use nft101_rust.Runtime.{runtime_config, millisecs_per_block, dollars, cents}

module _ {O L F N : Type 0} (h : Host O L F N) (rate : F) (default_account : AccountId) where
  -- In every state that the chain reaches, each open order lasts between an hour and two days, at the six
  -- seconds of a block, its prices are a dollar or more, and
  -- each vote on it locks a cent or more.
  pub open_order_limits :
      (now : ℕ) (l : L) (s : State L) (o : ℕ) (order : Order)
      → Reach h
          (runtime_config rate default_account)
          (genesis (runtime_config rate default_account) now l)
          s
      → s.orders o ≡ some order
      → (3600000 ≤ order.keep_block_num * millisecs_per_block)
        × (order.keep_block_num * millisecs_per_block ≤ 172800000)
        × (dollars ≤ order.start_price)
        × (dollars ≤ order.end_price)
        × All (λ vote. cents ≤ vote.amount) (s.votes o)
  unfolding runtime_config
  open_order_limits now l s o order r e =
      let wf = reach-WellFormed h (runtime_config rate default_account) now l s r in
      let g = wf.order_good o order e in
      (
        omega (arith, g.keep_ge),
        omega (arith, g.keep_le),
        g.price_ge,
        omega (arith, g.price_ge, g.price_le),
        All-imp (GoodVote (runtime_config rate default_account) o) (λ v. cents ≤ v.amount)
            (λ v q. q.amount_ge) (s.votes o) (wf.votes_good o),
      )
