-- ===== src/Runtime/Tests/Benchmarks.antt =====
-- The benchmarks of runtime/src/lib.rs, where the balances have two and the others none.
use Prim.Native.String.{String}
use text.Mathlib.Text.{◌==◌}
use nft101_rust.Prelude.{ℕ, refl, List, [], ◌∷◌, ◌++◌, inr, if◌then◌else◌}
use nft101_rust.Runtime.Apis.Benchmarks.{
  Result, ◌>>=◌, dispatch_benchmark, Twox, Answers, dispatch_benchmark-Answers,
}

abbrev benchmarks_of : ℕ → List String → String → Result (List ℕ)
benchmarks_of config keys name = if name == "pallet_balances" then inr (config ∷ 8 ∷ []) else inr []

abbrev add : ℕ → List String → String → List ℕ → Result (List ℕ)
add config keys name batches = benchmarks_of config keys name >>= λ added. inr (batches ++ added)

-- The hash at the names that are used.
abbrev twox : String → String
twox name =
    if name == "System"
    then "26aa394eea5630e07c48ae0c9558cef7"
    else if name == "Balances"
    then "c2261276cc9d1f8598ea4b6a74b15c2f"
    else if name == "Number"
    then "02a5c1b19ab7a04f536c519aca4983ac"
    else if name == "TotalIssuance"
    then "57c875e4cff74148e4628f264b974c80"
    else if name == "ExecutionPhase"
    then "ff553b5a9862a516939d82b3d3d8661a"
    else if name == "EventCount"
    then "0a98fdbe9ce6c55837576c60c7af3850"
    else "80d41e5e16056765bc8461851072c9d7"

twox-Twox : Twox twox
twox-Twox = record {
  system = refl;
  balances = refl;
  number = refl;
  total_issuance = refl;
  execution_phase = refl;
  event_count = refl;
  events = refl;
}

dispatch_benchmark-Answers_example :
    Answers (inr []) (inr (7 ∷ 8 ∷ [])) (inr []) (dispatch_benchmark add 7)
dispatch_benchmark-Answers_example =
    dispatch_benchmark-Answers add benchmarks_of twox (λ config keys name batches. refl) twox-Twox 7
