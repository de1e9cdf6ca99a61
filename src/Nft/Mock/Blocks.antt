-- ===== src/Nft/Mock/Blocks.antt =====
-- How the loop of `run_to_block` in pallets/nft/src/mock.rs ends.
use nft101_rust.Prelude.{ℕ, zero, suc, ◌+◌, ◌≤◌, ◌<◌, ◌≡◌, ◌⊎◌, inl, inr, refl, some, arith}
use native.Mathlib.Decide.{dec_le, dec_lt}
use nft101_rust.Nft.Types.{State}
use nft101_rust.Nft.Mock.{Hooks, next_block, run_to_block}

-- A hook leaves the block number.
pub record KeepsBlock {L : Type 0} (hook : ℕ → State L → State L) : Type 0 where
  pub same_block : (n : ℕ) (s : State L) → (hook n s).block_number ≡ s.block_number

module _ {L : Type 0} (hooks : Hooks (State L)) (nft_finalize : KeepsBlock hooks.nft_on_finalize)
    (system_finalize : KeepsBlock hooks.system_on_finalize)
    (system_initialize : KeepsBlock hooks.system_on_initialize)
    (nft_initialize : KeepsBlock hooks.nft_on_initialize) where
  next_block-number : (s : State L) → (next_block hooks s).block_number ≡ s.block_number + 1
  unfolding next_block
  next_block-number s =
      rw
        (
          nft_initialize.same_block, system_initialize.same_block, system_finalize.same_block,
          nft_finalize.same_block,
        )
        refl

  -- Where the hooks leave the block number, `run_to_block(n)` ends after as many rounds as
  -- there are blocks to go: at block `n`, or in the state where it was called if that is
  -- further already.
  pub run_to_block_ends :
      (fuel n : ℕ) (s : State L)
      → n ≤ s.block_number + fuel
      → (t : State L) × (run_to_block hooks fuel n s ≡ some t)
        × (((s.block_number ≤ n) × (t.block_number ≡ n)) ⊎ ((n < s.block_number) × (t ≡ s)))
  unfolding run_to_block
  run_to_block_ends zero n s enough = elim (dec_le s.block_number n) [
    | yes p ↦ (s, ground arith, inl (p, omega (arith, enough)))
    | no p ↦ (s, ground arith, inr (omega (arith, p), refl))
  ]
  run_to_block_ends (suc fuel) n s enough = elim (dec_lt s.block_number n) [
    | yes p ↦
        let (t, e, k) =
          run_to_block_ends fuel n (next_block hooks s)
            (omega (arith, next_block-number s, enough)) in
        (
          t,
          ground (arith, p, e),
          inl (
            omega (arith, p),
            elim k [
              | inl (_, q) ↦ q
              | inr (lt, _) ↦ absurd (omega (arith, lt, p, next_block-number s))
            ],
          ),
        )
    | no p ↦ (
      s,
      ground (arith, p),
      elim (dec_le s.block_number n) [
        | yes q ↦ inl (q, omega (arith, p, q))
        | no q ↦ inr (omega (arith, q), refl)
      ],
    )
  ]
