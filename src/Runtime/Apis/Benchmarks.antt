-- ===== src/Runtime/Apis/Benchmarks.antt =====
-- `dispatch_benchmark` of runtime/src/lib.rs, which is built with the feature runtime-benchmarks only.
use nft101_rust.Prelude.{◌≡◌, ◌≢◌, refl, List, [], ◌∷◌, ◌++◌, ◌⊎◌, inl, inr}
use Prim.Native.String.{String, ◌++◌ as ◌<>◌}

-- `Result<A, RuntimeString>`
abbrev pub Result : Type 0 → Type 0
Result A = String ⊎ A

infixl 5 ◌>>=◌
abbrev pub ◌>>=◌ : {A B : Type 0} → Result A → (A → Result B) → Result B
inl e >>= f = inl e
inr a >>= f = f a

-- The keys of the storage that no benchmark counts, in hexadecimal: the block number, the total issuance, the execution phase, the event
-- count and the system events.
abbrev pub whitelist : List String
whitelist =
    "26aa394eea5630e07c48ae0c9558cef702a5c1b19ab7a04f536c519aca4983ac"
    ∷ "c2261276cc9d1f8598ea4b6a74b15c2f57c875e4cff74148e4628f264b974c80"
    ∷ "26aa394eea5630e07c48ae0c9558cef7ff553b5a9862a516939d82b3d3d8661a"
    ∷ "26aa394eea5630e07c48ae0c9558cef70a98fdbe9ce6c55837576c60c7af3850"
    ∷ "26aa394eea5630e07c48ae0c9558cef780d41e5e16056765bc8461851072c9d7" ∷ []

-- What is answered if no pallet has added a batch.
abbrev pub found_batches : {Batch : Type 0} → List Batch → Result (List Batch)
found_batches [] = inl "Benchmark not found for this pallet."
found_batches (b ∷ bs) = inr (b ∷ bs)

-- Three steps that each append what they find.
collects :
    {Batch : Type 0} (a b c : Result (List Batch)) (first : Result (List Batch))
    (second third : List Batch → Result (List Batch))
    → first ≡ (a >>= λ added. inr added)
    → ((bs : List Batch) → second bs ≡ (b >>= λ added. inr (bs ++ added)))
    → ((bs : List Batch) → third bs ≡ (c >>= λ added. inr (bs ++ added)))
    → (first >>= λ bs. second bs >>= λ bs. third bs >>= λ bs. found_batches bs)
      ≡ (a >>= λ x. b >>= λ y. c >>= λ z. found_batches (x ++ y ++ z))
collects (inl e) b c first second third p q r = rw p refl
collects (inr x) (inl e) c first second third p q r = rw (p, q x) refl
collects (inr x) (inr y) (inl e) first second third p q r = rw (p, q x, r (x ++ y)) refl
collects (inr x) (inr y) (inr z) first second third p q r = rw (p, q x, r (x ++ y)) refl

-- `add_benchmark!` runs what the configuration asks for of the named pallet, and pushes the batches.
module _ {Config Batch : Type 0}
    (add_benchmark : Config → List String → String → List Batch → Result (List Batch)) where
  unfoldable pub dispatch_benchmark : Config → Result (List Batch)
  dispatch_benchmark config = add_benchmark config whitelist "frame_system" [] >>= λ batches.
      add_benchmark config whitelist "pallet_balances" batches >>= λ batches.
      add_benchmark config whitelist "pallet_timestamp" batches >>= λ batches. found_batches batches

  collected :
      (benchmarks : Config → List String → String → Result (List Batch))
      → ((config : Config) (keys : List String) (name : String) (batches : List Batch)
          → add_benchmark config keys name batches
            ≡ (benchmarks config keys name >>= λ added. inr (batches ++ added)))
      → (config : Config)
      → dispatch_benchmark config ≡ (
          benchmarks config whitelist "frame_system" >>= λ system.
          benchmarks config whitelist "pallet_balances" >>= λ balances.
          benchmarks config whitelist "pallet_timestamp" >>= λ timestamp.
          found_batches (system ++ balances ++ timestamp))
  unfolding dispatch_benchmark
  collected benchmarks pushes config =
      collects (benchmarks config whitelist "frame_system")
        (benchmarks config whitelist "pallet_balances")
        (benchmarks config whitelist "pallet_timestamp")
        (add_benchmark config whitelist "frame_system" [])
        (add_benchmark config whitelist "pallet_balances")
        (add_benchmark config whitelist "pallet_timestamp")
        (pushes config whitelist "frame_system" []) (pushes config whitelist "pallet_balances")
        (pushes config whitelist "pallet_timestamp")

-- The hash of a name by which a key of the storage is made, in hexadecimal: `twox_128` at the names that are used.
pub record Twox (twox : String → String) : Type 0 where
  pub system : twox "System" ≡ "26aa394eea5630e07c48ae0c9558cef7"
  pub balances : twox "Balances" ≡ "c2261276cc9d1f8598ea4b6a74b15c2f"
  pub number : twox "Number" ≡ "02a5c1b19ab7a04f536c519aca4983ac"
  pub total_issuance : twox "TotalIssuance" ≡ "57c875e4cff74148e4628f264b974c80"
  pub execution_phase : twox "ExecutionPhase" ≡ "ff553b5a9862a516939d82b3d3d8661a"
  pub event_count : twox "EventCount" ≡ "0a98fdbe9ce6c55837576c60c7af3850"
  pub events : twox "Events" ≡ "80d41e5e16056765bc8461851072c9d7"

-- The keys of the storage whose accesses are not counted, from the names of their pallets and items.
abbrev pub tracked : (String → String) → List String
tracked twox =
    (twox "System" <> twox "Number")
    ∷ (twox "Balances" <> twox "TotalIssuance")
    ∷ (twox "System" <> twox "ExecutionPhase")
    ∷ (twox "System" <> twox "EventCount")
    ∷ (twox "System" <> twox "Events")
    ∷ []

whitelist-tracked : (twox : String → String) → Twox twox → whitelist ≡ tracked twox
whitelist-tracked twox t =
    rw
      (t.system, t.balances, t.number, t.total_issuance, t.execution_phase, t.event_count, t.events)
      refl

-- What is answered, from what the benchmarks of the three pallets have found.
pub record Answers {Batch : Type 0} (system balances timestamp answer : Result (List Batch))
    : Type 0 where
  pub first_error : (e : String) → system ≡ inl e → answer ≡ inl e
  pub second_error :
      (x : List Batch) (e : String) → system ≡ inr x → balances ≡ inl e → answer ≡ inl e
  pub third_error :
      (x y : List Batch) (e : String)
      → system ≡ inr x
      → balances ≡ inr y
      → timestamp ≡ inl e
      → answer ≡ inl e
  pub not_found :
      system ≡ inr []
      → balances ≡ inr []
      → timestamp ≡ inr []
      → answer ≡ inl "Benchmark not found for this pallet."
  pub found :
      (x y z : List Batch)
      → system ≡ inr x
      → balances ≡ inr y
      → timestamp ≡ inr z
      → x ++ y ++ z ≢ []
      → answer ≡ inr (x ++ y ++ z)

found_batches-eq : {Batch : Type 0} (bs : List Batch) → bs ≢ [] → found_batches bs ≡ inr bs
found_batches-eq [] ne = absurd (ne refl)
found_batches-eq (b ∷ bs) ne = refl

answers :
    {Batch : Type 0} (system balances timestamp answer : Result (List Batch))
    → answer ≡ (system >>= λ x. balances >>= λ y. timestamp >>= λ z. found_batches (x ++ y ++ z))
    → Answers system balances timestamp answer
answers system balances timestamp answer q = record {
  first_error = λ e p. rw (q, p) refl;
  second_error = λ x e p r. rw (q, p, r) refl;
  third_error = λ x y e p r t. rw (q, p, r, t) refl;
  not_found = λ p r t. rw (q, p, r, t) refl;
  found = λ x y z p r t ne. rw (q, p, r, t) (found_batches-eq (x ++ y ++ z) ne);
}

module _ {Config Batch : Type 0}
    (add_benchmark : Config → List String → String → List Batch → Result (List Batch)) where
  -- Where adding a pallet runs its benchmarks and appends their batches, with the keys of the storage that are not counted
  -- made of the hashes of their pallets' and items' names (the block number, the total issuance, the execution phase, the
  -- event count and the events): the answer is the error of the first of the three pallets that meets one; an error that
  -- no benchmark was found if all have no batch; and else the batches of the system, of the balances and of the timestamp
  -- in this order. The NFT pallet has no part in it.
  pub dispatch_benchmark-Answers :
      (benchmarks : Config → List String → String → Result (List Batch)) (twox : String → String)
      → ((config : Config) (keys : List String) (name : String) (batches : List Batch)
          → add_benchmark config keys name batches
            ≡ (benchmarks config keys name >>= λ added. inr (batches ++ added)))
      → Twox twox
      → (config : Config)
      → Answers
          (benchmarks config (tracked twox) "frame_system")
          (benchmarks config (tracked twox) "pallet_balances")
          (benchmarks config (tracked twox) "pallet_timestamp")
          (dispatch_benchmark add_benchmark config)
  dispatch_benchmark-Answers benchmarks twox pushes hashes config =
      rw (← whitelist-tracked twox hashes) (
        answers _ _ _ (dispatch_benchmark add_benchmark config)
          (collected add_benchmark benchmarks pushes config))
