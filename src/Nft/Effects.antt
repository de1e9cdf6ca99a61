-- ===== src/Nft/Effects.antt =====
-- How a dispatchable runs: it returns, or returns an error, and keeps what it wrote in both
-- cases (this version of FRAME does not roll back), or it panics, which voids the block.
use nft101_rust.Prelude.{Bool, true, false, Option, none, some, [], ◌∷◌, ◌++◌}
use nft101_rust.Frame.{Reply, accepted, refused}
use nft101_rust.Nft.Types.{State, Event, Error, DispatchError, module_error, foreign}

pub data Outcome (L A : Type 0) : Type 0 where
  done : A → State L → Outcome L A
  failed : DispatchError → State L → Outcome L A
  panicked : Outcome L A

abbrev pub M : Type 0 → Type 0 → Type 0
M L A = State L → Outcome L A

abbrev pub pure : {L A : Type 0} → A → M L A
pure a s = done a s

-- How a run goes on from where its first part has ended.
abbrev pub and_then : {L A B : Type 0} → Outcome L A → (A → M L B) → Outcome L B
and_then (done a s) f = f a s
and_then (failed e s) f = failed e s
and_then panicked f = panicked

infixl 5 ◌>>=◌ ◌>>◌
abbrev pub ◌>>=◌ : {L A B : Type 0} → M L A → (A → M L B) → M L B
◌>>=◌ m f s = and_then (m s) f

abbrev pub ◌>>◌ : {L B : Type 0} → M L (Unit {0}) → M L B → M L B
m >> k = m >>= λ _. k

module _ {L : Type 0} where
  abbrev pub fail : {A : Type 0} → Error → M L A
  fail e s = failed (module_error e) s

  -- `ensure!(b, e)`
  abbrev pub ensure : Bool → Error → M L (Unit {0})
  ensure true e = pure tt
  ensure false e = fail e

  -- `.ok_or(e)?`
  abbrev pub ok_or : {A : Type 0} → Option A → Error → M L A
  ok_or none e = fail e
  ok_or (some a) e = pure a

  -- `?` on a result from outside the pallet.
  abbrev pub try_reply : {A : Type 0} → Reply A → M L A
  try_reply (accepted a) s = done a s
  try_reply (refused e) s = failed (foreign e) s

  -- A computation that may panic.
  abbrev pub or_panic : {A : Type 0} → Option A → M L A
  or_panic none s = panicked
  or_panic (some a) s = done a s

  abbrev pub gets : {A : Type 0} → (State L → A) → M L A
  gets f s = done (f s) s

  abbrev pub modify : (State L → State L) → M L (Unit {0})
  modify f s = done tt (f s)

  abbrev pub deposit_event : Event → M L (Unit {0})
  deposit_event e = modify (λ s. record s { events = s.events ++ e ∷ [] })
