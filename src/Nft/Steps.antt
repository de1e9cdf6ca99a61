-- ===== src/Nft/Steps.antt =====
-- How a run goes on: a rule for each kind of step of the handlers of pallets/nft/src/lib.rs, for any
-- predicate on how it ends.
use nft101_rust.Prelude.{
  ℕ, ◌+◌, ◌-◌, ◌≤◌, ◌<◌, ◌≡◌, not, leb, checked_add, checked_sub, refl, Bool, true, false, ltb,
  Option, none, some, Option-cases, Bool-cases, ◌==◌, ==→eq, ◌≢◌, inl, inr, arith,
}
use nft101_rust.Frame.{Reply, accepted, refused}
use nft101_rust.Nft.Types.{State, Nft, Order, Error, module_error, foreign}
use nft101_rust.Nft.Effects.{
  Outcome, failed, panicked, M, ◌>>=◌, ensure, ok_or, try_reply, or_panic,
}
use nft101_rust.Nft.Parts.{ensure_free_nft, is_time_to_settlement}

module _ {L B : Type 0} (P : Outcome L B → Type 0) where
  pub ensure-step :
      (b : Bool) (e : Error) (k : Unit {0} → M L B) (s : State L)
      → (b ≡ false → P (failed (module_error e) s))
      → (b ≡ true → P (k tt s))
      → P ((ensure b e >>= k) s)
  ensure-step true e k s no_ok yes_ok = yes_ok refl
  ensure-step false e k s no_ok yes_ok = no_ok refl

module _ {L A B : Type 0} (P : Outcome L B → Type 0) where
  pub ok_or-step :
      (o : Option A) (e : Error) (k : A → M L B) (s : State L)
      → (o ≡ none → P (failed (module_error e) s))
      → ((a : A) → o ≡ some a → P (k a s))
      → P ((ok_or o e >>= k) s)
  ok_or-step none e k s no_ok yes_ok = no_ok refl
  ok_or-step (some a) e k s no_ok yes_ok = yes_ok a refl

  pub reply-step :
      (r : Reply A) (k : A → M L B) (s : State L)
      → ((e : ℕ) → r ≡ refused e → P (failed (foreign e) s))
      → ((a : A) → r ≡ accepted a → P (k a s))
      → P ((try_reply r >>= k) s)
  reply-step (refused e) k s no_ok yes_ok = no_ok e refl
  reply-step (accepted a) k s no_ok yes_ok = yes_ok a refl

  pub panic-step :
      (o : Option A) (k : A → M L B) (s : State L)
      → (o ≡ none → P panicked)
      → ((a : A) → o ≡ some a → P (k a s))
      → P ((or_panic o >>= k) s)
  panic-step none k s panics goes_on = panics refl
  panic-step (some a) k s panics goes_on = goes_on a refl

module _ {L : Type 0} where
  -- The checks of `remove`, `transfer` and `order_sell` pass for the owner of an unlisted item only.
  pub free_nft-step :
      {B : Type 0} (P : Outcome L B → Type 0) (who n : ℕ) (k : Unit {0} → M L B) (s : State L)
      → (s.nfts n ≡ none → P (failed (module_error Error.nft_id_not_exist) s))
      → (s.nft_account n ≢ who → P (failed (module_error Error.not_nft_owner) s))
      → ((o : ℕ) → s.nft_order n ≡ some o → P (failed (module_error Error.nft_order_exist) s))
      → ((nft : Nft)
          → s.nfts n ≡ some nft
          → s.nft_account n ≡ who
          → s.nft_order n ≡ none
          → P (k tt s))
      → P ((ensure_free_nft who n >>= k) s)
  free_nft-step P who n k s absent owned listed good = elim (Option-cases (s.nfts n)) [
    | inl e ↦ rw e (absent e)
    | inr (nft, e) ↦ elim (Bool-cases (s.nft_account n == who)) [
      | inl own ↦ elim (Option-cases (s.nft_order n)) [
        | inl free ↦ rw (e, own, free) (good nft e (==→eq (s.nft_account n) who own) free)
        | inr (o, taken) ↦ rw (e, own, taken) (listed o taken)
      ]
      | inr other ↦ rw (e, other) (owned λ same. absurd (ground arith))
    ]
  ]

  -- The deadline check goes on with whether more blocks have passed than the order is kept.
  pub time-step :
      {B : Type 0} (P : Outcome L B → Type 0) (order : Order) (k : Bool → M L B) (s : State L)
      → (s.block_number < order.create_block
          → P (failed (module_error Error.block_number_overflow) s))
      → (order.create_block ≤ s.block_number
          → P (k (ltb order.keep_block_num (s.block_number - order.create_block)) s))
      → P ((is_time_to_settlement order >>= k) s)
  unfolding is_time_to_settlement
  time-step P order k s bad good = ground (arith, bad, good)

module _ {L B : Type 0} (P : Outcome L B → Type 0) where
  pub checked_add-step :
      (top a b : ℕ) (e : Error) (k : ℕ → M L B) (s : State L)
      → (top < a + b → P (failed (module_error e) s))
      → (a + b ≤ top → P (k (a + b) s))
      → P ((ok_or (checked_add top a b) e >>= k) s)
  checked_add-step top a b e k s bad good = ground (arith, bad, good)

  pub checked_sub-step :
      (a b : ℕ) (e : Error) (k : ℕ → M L B) (s : State L)
      → (a < b → P (failed (module_error e) s))
      → (b ≤ a → P (k (a - b) s))
      → P ((ok_or (checked_sub a b) e >>= k) s)
  checked_sub-step a b e k s bad good = ground (arith, bad, good)

  -- A check that one number is at most another.
  pub ensure_le-step :
      (a b : ℕ) (e : Error) (k : Unit {0} → M L B) (s : State L)
      → (b < a → P (failed (module_error e) s))
      → (a ≤ b → P (k tt s))
      → P ((ensure (leb a b) e >>= k) s)
  ensure_le-step a b e k s bad good = ground (arith, bad, good)

  -- The check that the deadline has not passed, and the one that it has.
  pub ensure_running-step :
      (a b : ℕ) (e : Error) (k : Unit {0} → M L B) (s : State L)
      → (a < b → P (failed (module_error e) s))
      → (b ≤ a → P (k tt s))
      → P ((ensure (not (ltb a b)) e >>= k) s)
  ensure_running-step a b e k s bad good = ground (arith, bad, good)

  pub ensure_over-step :
      (a b : ℕ) (e : Error) (k : Unit {0} → M L B) (s : State L)
      → (b ≤ a → P (failed (module_error e) s))
      → (a < b → P (k tt s))
      → P ((ensure (ltb a b) e >>= k) s)
  ensure_over-step a b e k s bad good = ground (arith, bad, good)
