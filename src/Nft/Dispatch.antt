-- ===== src/Nft/Dispatch.antt =====
-- The calls that `decl_module!` in pallets/nft/src/lib.rs declares, and the histories of a chain that
-- runs them.
use nft101_rust.Prelude.{ℕ, ◌+◌, ◌≤◌, ◌≡◌, none, subst, List, []}
use nft101_rust.Frame.{AccountId, Host}
use nft101_rust.Nft.Types.{State, Config, DispatchError}
use nft101_rust.Nft.Effects.{M, Outcome, done, failed, panicked}
use nft101_rust.Nft.Calls as Calls

-- `enum Call`
pub data Call : Type 0 where
  create : List ℕ → List ℕ → List ℕ → Call
  remove : ℕ → Call
  transfer : AccountId → ℕ → Call
  order_sell : ℕ → ℕ → ℕ → ℕ → Call
  order_buy : ℕ → ℕ → Call
  order_settlement : ℕ → Call
  vote_order : ℕ → ℕ → Call

module _ {L : Type 0} where
  -- A call ends in `t`, with success or with an error; a panic ends nowhere.
  pub data Ends (r : Outcome L (Unit {0})) (t : State L) : Type 0 where
    succeeds : r ≡ done tt t → Ends r t
    errs : (e : DispatchError) → r ≡ failed e t → Ends r t

  -- A predicate on states, of the state in which a call ends.
  abbrev pub After : (State L → Type 0) → Outcome L (Unit {0}) → Type 0
  After Q (done _ t) = Q t
  After Q (failed _ t) = Q t
  After Q panicked = Unit {0}

  pub ends_after :
      (Q : State L → Type 0) (r : Outcome L (Unit {0})) (t : State L) → Ends r t → After Q r → Q t
  ends_after Q r t (succeeds e) q = subst (After Q) e q
  ends_after Q r t (errs x e) q = subst (After Q) e q

module _ {L F : Type 0} (c : Config F) where
  -- The storage of a new chain.
  abbrev pub genesis : ℕ → L → State L
  genesis block ledger = record {
    nfts = λ _. none;
    nft_account = λ _. c.default_account;
    nft_order = λ _. none;
    orders = λ _. none;
    bids = λ _. none;
    votes = λ _. [];
    next_nft_id = 0;
    next_order_id = 0;
    block_number = block;
    ledger = ledger;
    events = [];
  }

module _ {O L F N : Type 0} (h : Host O L F N) (c : Config F) where
  unfoldable pub dispatch : O → Call → M L (Unit {0})
  dispatch origin (create title url desc) = Calls.create h c origin title url desc
  dispatch origin (remove n) = Calls.remove h c origin n
  dispatch origin (transfer target n) = Calls.transfer h c origin target n
  dispatch origin (order_sell n start_price end_price keep) =
      Calls.order_sell h c origin n start_price end_price keep
  dispatch origin (order_buy o price) = Calls.order_buy h c origin o price
  dispatch origin (order_settlement o) = Calls.order_settlement h c origin o
  dispatch origin (vote_order o amount) = Calls.vote_order h c origin o amount

  -- What can happen to the chain: a call, the next block, or a change of the ledger by other
  -- pallets, which leaves the reserved balances alone.
  pub data Step (s t : State L) : Type 0 where
    calls : (origin : O) (call : Call) → Ends (dispatch origin call s) t → Step s t
    next_block :
        s.block_number + 1 ≤ c.max_block_number
        → t ≡ record s { block_number = s.block_number + 1 }
        → Step s t
    outside :
        (l : L)
        → ((a : AccountId)
            → h.currency.reserved_balance a l ≡ h.currency.reserved_balance a s.ledger)
        → t ≡ record s { ledger = l }
        → Step s t

  pub data Reach (s : State L) : State L → Type 0 where
    here : Reach s s
    next : {t u : State L} → Reach s t → Step t u → Reach s u
