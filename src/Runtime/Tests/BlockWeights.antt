-- ===== src/Runtime/Tests/BlockWeights.antt =====
-- The weights of three calls under runtime/src/lib.rs.
use mathlib.Core.Logic.{◌↔◌}
use nft101_rust.Prelude.{ℕ, ◌+◌, ◌-◌, ◌*◌, ◌/◌, ◌^◌, ◌≤◌, refl, List, [], ◌∷◌, arith}
use nft101_rust.Nft.Dispatch.{Call, create, order_buy, order_settlement}
use nft101_rust.Runtime.BlockWeights.{
  Perbill, Constants, call_weight, total_weight, maximum_extrinsic_weight, calls_fit,
}

abbrev pub same_parts : ℕ → ℕ
same_parts n = n

abbrev pub percent : ℕ → ℕ
percent n = n * 10 ^ 7

abbrev pub less_parts : ℕ → ℕ → ℕ
less_parts p q = p - q

abbrev pub part_of : ℕ → ℕ → ℕ
part_of p n = p * n / 10 ^ 9

abbrev pub perbill : Perbill ℕ
perbill = record {
  parts = same_parts;
  from_percent = percent;
  saturating_sub = less_parts;
  times = part_of;
  parts-from_percent = λ n le. refl;
  parts-saturating_sub = λ p q. refl;
  times-exact = λ p n q e. omega (arith, e);
}

abbrev pub write_weight : ℕ → ℕ
write_weight n = n * 10 ^ 8

abbrev pub constants : Constants
constants = record {
  weight_per_second = 10 ^ 12;
  block_execution_weight = 5 * 10 ^ 9;
  extrinsic_base_weight = 125 * 10 ^ 6;
  writes = write_weight;
  second_eq = refl;
  execution_eq = refl;
  base_eq = refl;
  writes_eq = λ n. refl;
}

abbrev three_calls : List Call
three_calls = create [] [] [] ∷ order_buy 0 150 ∷ order_settlement 0 ∷ []

calls_fit_example :
    ((5 * 10 ^ 9 + total_weight perbill constants three_calls ≤ 15 * 10 ^ 11) ↔ (3 ≤ 6644))
    × ((call : Call)
        → 125 * 10 ^ 6 + call_weight perbill constants call
          ≤ maximum_extrinsic_weight perbill constants)
calls_fit_example = calls_fit perbill constants three_calls
