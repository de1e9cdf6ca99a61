-- ===== src/Nft/Backing/Pledges.antt =====
-- The votes of an order of pallets/nft/src/lib.rs without their order: what each account has pledged.
use mathlib.Core.Quot
use mathlib.Core.Quot.{Quot, Quot-set}
use native.Mathlib.Nat.{ℕ_set}
use nft101_rust.Prelude.{ℕ, ◌+◌, ◌≤◌, ◌≡◌, ap, List, [], ◌∷◌, arith}
use nft101_rust.Frame.{AccountId, Host}
use nft101_rust.Nft.Types.{Vote}
use nft101_rust.Nft.Parts.{unlock_votes}
use nft101_rust.Nft.Backing.{votes_held}
use nft101_rust.Nft.Backing.Unlocking.{unlock_votes_exact, unreserve_exact}

-- Two lists of votes lock the same of every account.
abbrev pub SamePledges : List Vote → List Vote → Type 0
SamePledges vs ws = (a : AccountId) → votes_held a vs ≡ votes_held a ws

abbrev pub Pledges : Type 0
Pledges = Quot SamePledges

abbrev pub pledges_of : List Vote → Pledges
pledges_of = Quot.mk

unfoldable pub pledged_by : AccountId → Pledges → ℕ
pledged_by a = Quot.lift ℕ_set (votes_held a) (λ vs ws h. h a)

pub pledged_exact : (vs ws : List Vote) → pledges_of vs ≡ pledges_of ws → SamePledges vs ws
unfolding pledged_by
pledged_exact vs ws e a = ap (pledged_by a) e

module _ {O L F N : Type 0} (h : Host O L F N) where
  open h.currency use {free_balance, reserved_balance, unreserve, unreserve_moves}

  -- What is unlocked of an account is free again.
  unlock_votes_free :
      (votes : List Vote) (l : L)
      → ((a : AccountId) → votes_held a votes ≤ reserved_balance a l)
      → (a : AccountId)
      → free_balance a (unlock_votes h votes l) ≡ free_balance a l + votes_held a votes
  unfolding unlock_votes
  unlock_votes_free [] l enough a = omega arith
  unlock_votes_free (v ∷ vs) l enough a =
      let one =
        λ (b : ℕ). unreserve_exact h v.owner v.amount l b (ground (arith, enough v.owner)) in
      let rest =
        unlock_votes_free vs (unreserve v.owner v.amount l) (λ b. omega (arith, one b, enough b))
          a in
      ground (arith, (unreserve_moves v.owner v.amount l a).0, enough v.owner, rest)

  -- The unlocking of the votes of a cancelled order depends on what each account has pledged only, not on the order
  -- of the votes or on how many an account has cast: two lists with the same pledges leave every account with the
  -- same free and reserved balance, if the votes are reserved.
  pub unlock_votes_unordered :
      (vs ws : List Vote) (l : L)
      → pledges_of vs ≡ pledges_of ws
      → ((a : AccountId) → votes_held a vs ≤ reserved_balance a l)
      → (a : AccountId)
      → (free_balance a (unlock_votes h vs l) ≡ free_balance a (unlock_votes h ws l))
        × (reserved_balance a (unlock_votes h vs l) ≡ reserved_balance a (unlock_votes h ws l))
  unlock_votes_unordered vs ws l same enough a =
      let held = pledged_exact vs ws same in
      let enough' : (b : AccountId) → votes_held b ws ≤ reserved_balance b l =
        λ b. omega (arith, held b, enough b) in
      (
        omega (arith, held a, unlock_votes_free vs l enough a, unlock_votes_free ws l enough' a),
        omega (
          arith,
          held a,
          unlock_votes_exact h vs l enough a,
          unlock_votes_exact h ws l enough' a,
        ),
      )
